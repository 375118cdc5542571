-- ===== src/Prelude/HostPort.antt =====
-- `net.SplitHostPort`, without the texts of its errors.
use Prim.Native.Nat.{ℕ, suc, ◌+◌, ◌-◌}
use mathlib.Core.Bool.{Bool, true, false, not, ◌||◌}
use mathlib.Core.List.{[], ◌∷◌}
use mathlib.Core.Option.{Option, none, some}
use virtual_bess.Prelude.Tests.{◌==◌, if◌then◌else◌}
use virtual_bess.Prelude.Lists.{take, drop}
use virtual_bess.Prelude.Text.{Text}

abbrev or_index : Option ℕ → Option ℕ → Option ℕ
or_index (some i) other = some i
or_index none other = other

abbrev pub shifted : Option ℕ → Option ℕ
shifted none = none
shifted (some i) = some (suc i)

-- `bytealg.IndexByteString`
abbrev pub index_byte : Text → ℕ → Option ℕ
index_byte [] c = none
index_byte (d ∷ s) c = if d == c then some 0 else shifted (index_byte s c)

-- `bytealg.LastIndexByteString`
abbrev pub last_index_byte : Text → ℕ → Option ℕ
last_index_byte [] c = none
last_index_byte (d ∷ s) c =
    or_index (shifted (last_index_byte s c)) (if d == c then some 0 else none)

abbrev pub contains : Text → ℕ → Bool
contains s c = elim (index_byte s c) [ none ↦ false | some i ↦ true ]

abbrev pub starts_with : Text → ℕ → Bool
starts_with [] c = false
starts_with (d ∷ s) c = d == c

-- the host in brackets, `i` the last colon and `close` the first closing bracket
abbrev split_bracketed : Text → ℕ → ℕ → Option (Text × Text)
split_bracketed s i close =
    if not (close + 1 == i)
    then none
    else if contains (drop 1 s) b'[' || contains (drop (close + 1) s) b']'
    then none
    else some (take (close - 1) (drop 1 s), drop (i + 1) s)

abbrev split_plain : Text → ℕ → Option (Text × Text)
split_plain s i =
    if contains (take i s) b':'
    then none
    else if contains s b'[' || contains s b']'
    then none
    else some (take i s, drop (i + 1) s)

abbrev split_at : Text → Option ℕ → Option (Text × Text)
split_at s none = none
split_at s (some i) =
    if starts_with s b'['
    then elim (index_byte s b']') [ none ↦ none | some close ↦ split_bracketed s i close ]
    else split_plain s i

abbrev pub split_host_port : Text → Option (Text × Text)
split_host_port s = split_at s (last_index_byte s b':')
