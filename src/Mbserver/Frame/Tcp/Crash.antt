-- ===== src/Mbserver/Frame/Tcp/Crash.antt =====
-- Which packets `NewTCPFrame` panics on.
use virtual_bess.Prelude.{
  ℕ, ◌+◌, ◌≤◌, List, [], ◌∷◌, ◌≡◌, ◌≢◌, ◌⊎◌, ◌↔◌, inl, inr, arith, be16, length, get_or,
  get_elem?_past,
}
use virtual_bess.Prelude.Go.{crash, Slice, len}
use virtual_bess.Mbserver.Frame.Tcp.{
  TcpFrame, bytes_for_coils, bytes_for_registers, check_byte_count, check_data_length, finish_frame,
  parse_packet, new_tcp_frame,
}

-- A write of several coils or registers whose data field ends before the byte count.
pub record LacksByteCount (packet : List ℕ) : Type 0 where
  pub long_enough : 9 ≤ length packet
  pub cut_off : length packet ≤ 12
  pub write_multiple : (get_or packet 7 0 ≡ 0x0F) ⊎ (get_or packet 7 0 ≡ 0x10)
  pub counted : be16 (get_or packet 4 0) (get_or packet 5 0) + 6 ≡ length packet

check_byte_count_short :
    (expected : ℕ → ℕ) (d : Slice) → len d ≤ 4 → check_byte_count expected d ≡ crash
check_byte_count_short expected d h = ground (arith, get_elem?_past d.vals 4 h)

check_byte_count_long :
    (expected : ℕ → ℕ) (d : Slice) → 5 ≤ len d → check_byte_count expected d ≢ crash
check_byte_count_long expected d h = split d.vals d.spare h
  where
    split :
        (vals spare : List ℕ)
        → 5 ≤ length vals
        → check_byte_count expected (record { vals = vals; spare = spare }) ≢ crash
    split (a ∷ (b ∷ (c ∷ (e ∷ (f ∷ rest))))) spare k = ground arith
    split [] spare k = absurd (omega arith)
    split _ spare k = absurd (omega arith)

finish_frame-crash_only :
    (f : TcpFrame)
    → finish_frame f ≡ crash
    → (f.frame_length ≡ len f.payload + 2)
      × (len f.payload ≤ 4)
      × ((f.function ≡ 0x0F) ⊎ (f.function ≡ 0x10))
unfolding finish_frame check_data_length
finish_frame-crash_only f h = ground (
  arith,
  check_byte_count_long bytes_for_coils f.payload,
  check_byte_count_long bytes_for_registers f.payload,
)

finish_frame_crashes :
    (f : TcpFrame)
    → f.frame_length ≡ len f.payload + 2
    → len f.payload ≤ 4
    → (f.function ≡ 0x0F) ⊎ (f.function ≡ 0x10)
    → finish_frame f ≡ crash
unfolding finish_frame check_data_length
finish_frame_crashes f h short (inl w) =
    ground (arith, check_byte_count_short bytes_for_coils f.payload short)
finish_frame_crashes f h short (inr w) =
    ground (arith, check_byte_count_short bytes_for_registers f.payload short)

parse_packet-crash :
    (packet spare : List ℕ) → (parse_packet packet spare ≡ crash) ↔ LacksByteCount packet
unfolding parse_packet
parse_packet-crash (a ∷ (b ∷ (c ∷ (d ∷ (e ∷ (g ∷ (i ∷ (j ∷ (x ∷ xs))))))))) spare = (
  λ h.
      let (counted, short, write) = finish_frame-crash_only _ h in
      record {
        long_enough = omega arith;
        cut_off = omega arith;
        write_multiple = write;
        counted = omega arith;
      },
  λ k. finish_frame_crashes _ (omega arith) (omega arith) k.write_multiple,
)
parse_packet-crash _ spare = (λ h. cc, λ k. absurd (omega (arith, k.long_enough)))

-- `NewTCPFrame` panics on exactly the packets of 9 to 12 bytes with function code 15 or 16 and a
-- correct length field: their data field ends before the byte count that it reads.
pub new_tcp_frame-crash : (p : Slice) → (new_tcp_frame p ≡ crash) ↔ LacksByteCount p.vals
unfolding new_tcp_frame
new_tcp_frame-crash p = parse_packet-crash p.vals p.spare
