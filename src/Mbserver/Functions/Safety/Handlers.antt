-- ===== src/Mbserver/Functions/Safety/Handlers.antt =====
-- Each default handler returns on a data field of four bytes, or five for the writes of several
-- elements.
use virtual_bess.Prelude.{
  ℕ, ◌+◌, ◌*◌, List, [], ◌∷◌, ◌≡◌, refl, ◌∙◌, arith, IsU16, length, byte, min, ◌==◌, if◌then◌else◌,
  inl, inr, Bool-cases,
}
use native.Mathlib.Decide.{dec_le}
use virtual_bess.Mbserver.Functions.{read_bits, read_words}
use virtual_bess.Mbserver.Functions.Coils.{read_bits_run, write_multiple_coils_run}
use virtual_bess.Mbserver.Functions.WriteBits.{quota}
use virtual_bess.Prelude.Go.{Run}
use virtual_bess.Prelude.Array.{Array, update, window, copied, overlay}
use virtual_bess.Mbserver.Exceptions.{success, illegal_data_address}
use virtual_bess.Mbserver.Frame.{View, uint16_to_bytes, register_and_number}
use virtual_bess.Mbserver.Functions.{
  Memory, Reply, answer, refuse, bytes_to_uint16, read_coils, read_discrete_inputs,
  read_holding_registers, read_input_registers, write_single_coil, write_holding_register,
  write_multiple_coils, write_holding_registers,
}
use virtual_bess.Mbserver.Functions.Request.{
  request, address_and_number, address_and_value, value_bytes, echo,
}
use virtual_bess.Mbserver.Functions.Safety.{
  IsSized, IsSized-coils, IsSized-holding_registers, Returns, IsSafe, OnWords, IsSafe-OnWords,
}

module _ (m : Memory) (register n : ℕ) (rest spare : List ℕ) (hr : IsU16 register)
    (hn : IsU16 n) where
  abbrev req : View
  req = request register n rest spare

  Returns-refusal :
      (run : Run (Reply Memory)) → IsSized m → run ≡ refuse m illegal_data_address → Returns m run
  Returns-refusal run sized e =
      (record { state = m; response = []; exception = illegal_data_address }, e, sized)

  Returns-answer :
      (run : Run (Reply Memory)) (s : Memory) (d : List ℕ)
      → IsSized s
      → run ≡ answer s d
      → Returns m run
  Returns-answer run s d sized e =
      (record { state = s; response = d; exception = success }, e, sized)

  Returns-bits : (area : Array) → IsSized m → area.size ≡ 65536 → Returns m (read_bits area m req)
  Returns-bits area sized size = elim (dec_le (register + n) 65535) [
    | yes inside ↦
        let (d, run, _) = read_bits_run area m register n hr hn rest spare size inside in
        Returns-answer (read_bits area m req) m (window d.at 0 d.size) sized run
    | no outside ↦
        Returns-refusal (read_bits area m req) sized
          (unfold read_bits in rw (address_and_number register n rest spare hr hn) (ground arith))
  ]

  Returns-words : (area : Array) → IsSized m → area.size ≡ 65536 → Returns m (read_words area m req)
  unfolding read_words
  Returns-words area sized size = elim (dec_le (register + n) 65536) [
    | yes inside ↦
        Returns-answer (read_words area m req) m
          (byte (n * 2) ∷ uint16_to_bytes (window area.at register n)) sized
          (rw (address_and_number register n rest spare hr hn) (ground arith))
    | no outside ↦
        Returns-refusal (read_words area m req) sized
          (rw (address_and_number register n rest spare hr hn) (ground arith))
  ]

  Returns-single_coil : IsSized m → Returns m (write_single_coil m req)
  unfolding write_single_coil
  Returns-single_coil sized =
      Returns-answer (write_single_coil m req)
        (record m {
          coils = record m.coils { at = update m.coils.at register (if n == 0 then 0 else 1) };
        })
        (register_and_number register n []) (IsSized-coils m _ sized sized.coils)
        (rw (address_and_value register n rest spare hr hn, echo register n rest spare)
          (ground (arith, sized.coils)))

  Returns-holding_register : IsSized m → Returns m (write_holding_register m req)
  unfolding write_holding_register
  Returns-holding_register sized =
      Returns-answer (write_holding_register m req)
        (record m {
          holding_registers = record m.holding_registers {
            at = update m.holding_registers.at register n;
          };
        })
        (register_and_number register n [])
        (IsSized-holding_registers m _ sized sized.holding_registers)
        (rw (address_and_value register n rest spare hr hn, echo register n rest spare)
          (ground (arith, sized.holding_registers)))

module _ (m : Memory) (register n b : ℕ) (rest spare : List ℕ) (hr : IsU16 register)
    (hn : IsU16 n) where
  abbrev long_req : View
  long_req = request register n (b ∷ rest) spare

  Returns-multiple_coils : IsSized m → Returns m (write_multiple_coils m long_req)
  Returns-multiple_coils sized = elim (dec_le (register + n) 65536) [
    | yes inside ↦
        let k = min (8 * length rest) (quota 0 n) in
        let (c, run, p) =
          write_multiple_coils_run m.coils m register n hr hn rest b spare k refl sized.coils inside
            (omega arith) in
        Returns-answer m register n (b ∷ rest) spare hr hn (write_multiple_coils m long_req)
          (record m { coils = c }) (register_and_number register n [])
          (IsSized-coils m c sized (p.same_size ∙ sized.coils)) run
    | no outside ↦
        Returns-refusal m register n (b ∷ rest) spare hr hn (write_multiple_coils m long_req) sized
          (unfold write_multiple_coils in
            rw
              (
                address_and_number register n (b ∷ rest) spare hr hn,
                value_bytes register n b rest spare,
              )
              (ground arith))
  ]

  Returns-holding_registers : IsSized m → Returns m (write_holding_registers m long_req)
  unfolding write_holding_registers
  Returns-holding_registers sized =
      let vs = bytes_to_uint16 rest in
      let k = copied m.holding_registers register vs in
      let m' = record m {
        holding_registers = record m.holding_registers {
          at = overlay m.holding_registers.at register k vs;
        };
      } in
      let kept = IsSized-holding_registers m m'.holding_registers sized sized.holding_registers in
      let run : write_holding_registers m long_req ≡ (
          if k == n
          then answer m' (register_and_number register n [])
          else refuse m' illegal_data_address) =
        rw
          (
            address_and_number register n (b ∷ rest) spare hr hn,
            value_bytes register n b rest spare,
            echo register n (b ∷ rest) spare,
          )
          (ground (arith, sized.holding_registers)) in
      elim (Bool-cases (k == n)) [
        | inl all ↦ (_, rw all at run, kept)
        | inr some ↦ (_, rw some at run, kept)
      ]

pub read_coils-IsSafe : IsSafe read_coils 4
read_coils-IsSafe =
    IsSafe-OnWords read_coils 4 (omega arith) λ m register n rest spare sized hr hn enough dev fn.
      unfold read_coils in
      unfold read_bits in Returns-bits m register n rest spare hr hn m.coils sized sized.coils

pub read_discrete_inputs-IsSafe : IsSafe read_discrete_inputs 4
read_discrete_inputs-IsSafe =
    IsSafe-OnWords read_discrete_inputs 4 (omega arith)
      λ m register n rest spare sized hr hn enough dev fn.
        unfold read_discrete_inputs in
        unfold read_bits in
        Returns-bits m register n rest spare hr hn m.discrete_inputs sized sized.discrete_inputs

pub read_holding_registers-IsSafe : IsSafe read_holding_registers 4
read_holding_registers-IsSafe =
    IsSafe-OnWords read_holding_registers 4 (omega arith)
      λ m register n rest spare sized hr hn enough dev fn.
        unfold read_holding_registers in
        unfold read_words in
        Returns-words m register n rest spare hr hn m.holding_registers sized
          sized.holding_registers

pub read_input_registers-IsSafe : IsSafe read_input_registers 4
read_input_registers-IsSafe =
    IsSafe-OnWords read_input_registers 4 (omega arith)
      λ m register n rest spare sized hr hn enough dev fn.
        unfold read_input_registers in
        unfold read_words in
        Returns-words m register n rest spare hr hn m.input_registers sized sized.input_registers

pub write_single_coil-IsSafe : IsSafe write_single_coil 4
write_single_coil-IsSafe =
    IsSafe-OnWords write_single_coil 4 (omega arith)
      λ m register n rest spare sized hr hn enough dev fn.
        unfold write_single_coil in Returns-single_coil m register n rest spare hr hn sized

pub write_holding_register-IsSafe : IsSafe write_holding_register 4
write_holding_register-IsSafe =
    IsSafe-OnWords write_holding_register 4 (omega arith)
      λ m register n rest spare sized hr hn enough dev fn.
        unfold write_holding_register in
        Returns-holding_register m register n rest spare hr hn sized

pub write_multiple_coils-IsSafe : IsSafe write_multiple_coils 5
write_multiple_coils-IsSafe = IsSafe-OnWords write_multiple_coils 5 (omega arith) on
  where
    on : OnWords write_multiple_coils 5
    on m register n [] spare sized hr hn enough dev fn = absurd (omega arith)
    on m register n (b ∷ rest) spare sized hr hn enough dev fn =
        unfold write_multiple_coils in Returns-multiple_coils m register n b rest spare hr hn sized

pub write_holding_registers-IsSafe : IsSafe write_holding_registers 5
write_holding_registers-IsSafe = IsSafe-OnWords write_holding_registers 5 (omega arith) on
  where
    on : OnWords write_holding_registers 5
    on m register n [] spare sized hr hn enough dev fn = absurd (omega arith)
    on m register n (b ∷ rest) spare sized hr hn enough dev fn =
        unfold write_holding_registers in
        Returns-holding_registers m register n b rest spare hr hn sized
