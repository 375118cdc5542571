-- ===== src/Mbserver/Functions/Safety.antt =====
-- The handlers do not panic on a data field that is long enough, and keep the memory areas' sizes.
pub mod Handlers
use Prim.Native.Nat.{max}
use virtual_bess.Prelude.{
  ℕ, ◌+◌, ◌-◌, ◌*◌, ◌/◌, ◌≤◌, ◌<◌, List, [], ◌∷◌, ◌≡◌, refl, sym, ap, ◌∙◌, subst, arith, All,
  IsByte, IsU16, length, byte, be16, bytes-be16, min, hi_byte, lo_byte, le→ltb_false, ltb, lt→ltb,
  ◌==◌, if◌then◌else◌, inl, inr, Bool-cases, true, false,
}
use native.Mathlib.Decide.{dec_le}
use virtual_bess.Mbserver.Functions.{read_bits, read_words}
use virtual_bess.Mbserver.Functions.Coils.{read_bits_run, write_multiple_coils_run}
use virtual_bess.Mbserver.Functions.WriteBits.{quota}
use virtual_bess.Prelude.Go.{Run, done, Slice, len}
use virtual_bess.Prelude.Array.{Array, zeros, update, window, copied, overlay}
use virtual_bess.Mbserver.Exceptions.{success, illegal_data_address}
use virtual_bess.Mbserver.Frame.{
  View, uint16_to_bytes, register_and_number, register_address_and_number,
  register_address_and_value,
}
use virtual_bess.Mbserver.Functions.{
  Memory, Reply, Handler, answer, refuse, bytes_to_uint16, read_coils, read_discrete_inputs,
  read_holding_registers, read_input_registers, write_single_coil, write_holding_register,
  write_multiple_coils, write_holding_registers,
}
use virtual_bess.Mbserver.Functions.Request.{
  request, address_and_number, address_and_value, value_bytes, echo,
}

-- `NewServer` makes each area with 65536 elements.
pub record IsSized (m : Memory) : Type 0 where
  pub discrete_inputs : m.discrete_inputs.size ≡ 65536
  pub coils : m.coils.size ≡ 65536
  pub holding_registers : m.holding_registers.size ≡ 65536
  pub input_registers : m.input_registers.size ≡ 65536

pub IsSized-coils :
    (m : Memory) (c : Array) → IsSized m → c.size ≡ 65536 → IsSized (record m { coils = c })
IsSized-coils m c sized e = record {
  discrete_inputs = sized.discrete_inputs;
  coils = e;
  holding_registers = sized.holding_registers;
  input_registers = sized.input_registers;
}

pub IsSized-holding_registers :
    (m : Memory) (c : Array)
    → IsSized m
    → c.size ≡ 65536
    → IsSized (record m { holding_registers = c })
IsSized-holding_registers m c sized e = record {
  discrete_inputs = sized.discrete_inputs;
  coils = sized.coils;
  holding_registers = e;
  input_registers = sized.input_registers;
}

-- The handler returns, and the areas keep their sizes.
abbrev pub Returns : Memory → Run (Reply Memory) → Type 0
Returns m run = (r : Reply Memory) × (run ≡ done r) × IsSized r.state

-- The handler returns on every data field of `least` bytes or more.
abbrev pub IsSafe : Handler Memory → ℕ → Type 0
IsSafe h least =
    (m : Memory) (v : View)
    → IsSized m
    → All IsByte v.body.vals
    → least ≤ len v.body
    → Returns m (h m v)

-- Four bytes and more are two words and a rest.
abbrev pub OnWords : Handler Memory → ℕ → Type 0
OnWords h least =
    (m : Memory) (register number : ℕ) (rest spare : List ℕ)
    → IsSized m
    → IsU16 register
    → IsU16 number
    → least ≤ 4 + length rest
    → (dev fn : ℕ)
    → Returns m (
        h m (record {
          device_id = dev;
          function = fn;
          body = (request register number rest spare).body;
        }))

as_words :
    (a b c d : ℕ) (rest : List ℕ)
    → IsByte a
    → IsByte b
    → IsByte c
    → IsByte d
    → register_and_number (be16 a b) (be16 c d) rest ≡ a ∷ (b ∷ (c ∷ (d ∷ rest)))
as_words a b c d rest ha hb hc hd = ground (arith, bytes-be16 a b ha hb, bytes-be16 c d hc hd)

pub IsSafe-OnWords : (h : Handler Memory) (least : ℕ) → 4 ≤ least → OnWords h least → IsSafe h least
IsSafe-OnWords h least four on m v sized bytes enough =
    split v.device_id v.function v.body.vals v.body.spare bytes enough
  where
    split :
        (dev fn : ℕ) (vals spare : List ℕ)
        → All IsByte vals
        → least ≤ length vals
        → Returns m (
            h m (record {
              device_id = dev;
              function = fn;
              body = record { vals = vals; spare = spare };
            }))
    split dev fn (a ∷ (b ∷ (c ∷ (d ∷ rest)))) spare (ha, (hb, (hc, (hd, hs)))) k =
        subst
          (λ (vals : List ℕ). Returns m (
            h m (record {
              device_id = dev;
              function = fn;
              body = record { vals = vals; spare = spare };
            })))
          (as_words a b c d rest ha hb hc hd)
          (on m (be16 a b) (be16 c d) rest spare sized (omega arith) (omega arith) (omega arith) dev
            fn)
    split dev fn [] spare bs k = absurd (omega arith)
    split dev fn _ spare bs k = absurd (omega arith)
