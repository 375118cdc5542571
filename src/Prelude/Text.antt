-- ===== src/Prelude/Text.antt =====
-- Go strings as their bytes, and what `strings`, `strconv` and `net` do with them.
use Prim.Native.Char.{code}
use Prim.Native.Nat.{ℕ, ◌+◌, ◌-◌, ◌*◌}
use Prim.Native.String.{String}
use mathlib.Core.Path.{◌≡◌, refl}
use mathlib.Core.Bool.{Bool, true, false, ◌&&◌, ◌||◌}
use mathlib.Core.List.{List, [], ◌∷◌}
use mathlib.Core.Option.{Option, none, some}
use native.Mathlib.Omega.{arith}
use virtual_bess.Prelude.Tests.{ltb, leb, ◌==◌, if◌then◌else◌}

abbrev pub Text : Type 0
Text = List ℕ

-- the bytes of an ASCII literal
abbrev pub codes : String → Text
codes String.[] = []
codes (String.◌∷◌ c s) = code c ∷ codes s

-- `s == t`
abbrev pub same : Text → Text → Bool
same [] [] = true
same [] (d ∷ t) = false
same (c ∷ s) [] = false
same (c ∷ s) (d ∷ t) = (c == d) && same s t

pub same_refl : (s : Text) → same s s ≡ true
same_refl [] = refl
same_refl (c ∷ s) = ground (arith, same_refl s)

pub same-eq : (s t : Text) → same s t ≡ true → s ≡ t
same-eq [] [] h = refl
same-eq [] (d ∷ t) h = cc
same-eq (c ∷ s) [] h = cc
same-eq (c ∷ s) (d ∷ t) h = ground (arith, h, same-eq s t)

-- `s == ""`
abbrev pub is_empty {ℓ} : {A : Type ℓ} → List A → Bool
is_empty [] = true
is_empty (c ∷ s) = false

abbrev pub or_text : Text → Text → Text
or_text s t = if is_empty s then t else s

abbrev pub between : ℕ → ℕ → ℕ → Bool
between low high c = leb low c && leb c high

abbrev pub is_digit : ℕ → Bool
is_digit = between b'0' b'9'

abbrev pub is_alpha : ℕ → Bool
is_alpha c = between b'A' b'Z' c || between b'a' b'z' c

-- the white space of `strings.TrimSpace` in ASCII
abbrev pub is_space : ℕ → Bool
is_space c = between 9 13 c || (c == 32)

abbrev pub trim_left : Text → Text
trim_left [] = []
trim_left (c ∷ s) = if is_space c then trim_left s else c ∷ s

-- a byte in front of a text that has lost the white space at its end
abbrev pub cons_trimmed : ℕ → Text → Text
cons_trimmed c s = if is_space c && is_empty s then [] else c ∷ s

abbrev pub trim_right : Text → Text
trim_right [] = []
trim_right (c ∷ s) = cons_trimmed c (trim_right s)

-- `strings.TrimSpace` of an ASCII string
abbrev pub trim_space : Text → Text
trim_space s = trim_right (trim_left s)

-- `strings.ReplaceAll(s, c, "")` for a string of one byte
abbrev pub remove_all : ℕ → Text → Text
remove_all c [] = []
remove_all c (d ∷ s) = if d == c then remove_all c s else d ∷ remove_all c s

-- `strings.TrimPrefix(s, cd)` for a prefix of two bytes
abbrev pub trim_prefix : ℕ → ℕ → Text → Text
trim_prefix c d (x ∷ y ∷ s) = if (x == c) && (y == d) then s else x ∷ y ∷ s
trim_prefix c d s = s

-- the value of a hexadecimal digit
abbrev pub hex_value : ℕ → Option ℕ
hex_value c =
    if is_digit c
    then some (c - b'0')
    else if between b'a' b'f' c
    then some (c - b'a' + 10)
    else if between b'A' b'F' c
    then some (c - b'A' + 10)
    else none

-- the loop of `strconv.ParseUint(s, 16, 16)`, on the number read so far
abbrev pub hex_scan : Text → ℕ → Option ℕ
hex_scan [] n = some n
hex_scan (c ∷ s) n = elim (hex_value c) [
  | none ↦ none
  | some d ↦ if ltb 65535 (n * 16 + d) then none else hex_scan s (n * 16 + d)
]

-- `strconv.ParseUint(s, 16, 16)`
abbrev pub parse_hex_u16 : Text → Option ℕ
parse_hex_u16 s = if is_empty s then none else hex_scan s 0

abbrev pub hex_pair : Option ℕ → Option ℕ → Option (List ℕ) → Option (List ℕ)
hex_pair (some a) (some b) (some bytes) = some ((a * 16 + b) ∷ bytes)
hex_pair (some a) (some b) none = none
hex_pair (some a) none rest = none
hex_pair none b rest = none

-- `hex.DecodeString`
abbrev pub hex_decode : Text → Option (List ℕ)
hex_decode [] = some []
hex_decode (c ∷ []) = none
hex_decode (c ∷ d ∷ s) = hex_pair (hex_value c) (hex_value d) (hex_decode s)
