-- ===== src/Mbserver/Frame/Tcp/Accepted.antt =====
-- The function codes and the lengths of the data fields that `NewTCPFrame` accepts.
use virtual_bess.Prelude.{ℕ, ◌≤◌, ◌≡◌, ◌⊎◌, arith, List, All, IsByte, get_elem?_past, ◌∷◌}
use virtual_bess.Prelude.Go.{ok, Slice, len}
use virtual_bess.Mbserver.Frame.Tcp.{
  TcpFrame, bytes_for_coils, bytes_for_registers, check_byte_count, check_data_length, parse_packet,
  new_tcp_frame,
}
use virtual_bess.Mbserver.Frame.Tcp.RoundTrip.{finish_frame_inverts}

counted : (expected : ℕ → ℕ) (d : Slice) → check_byte_count expected d ≡ ok tt → 5 ≤ len d
counted expected d h = ground (arith, get_elem?_past d.vals 4)

-- Four bytes for the function codes 1 to 6, five or more for 15 and 16.
abbrev pub IsAccepted : ℕ → Slice → Type 0
IsAccepted fn d = ((1 ≤ fn) × (fn ≤ 6) × (len d ≡ 4)) ⊎ (((fn ≡ 15) ⊎ (fn ≡ 16)) × (5 ≤ len d))

check_data_length-IsAccepted :
    (fn : ℕ) (d : Slice) → check_data_length fn d ≡ ok tt → IsAccepted fn d
unfolding check_data_length
check_data_length-IsAccepted fn d h =
    ground (arith, counted bytes_for_coils d, counted bytes_for_registers d)

parsed :
    (packet spare : List ℕ) (f : TcpFrame)
    → All IsByte packet
    → parse_packet packet spare ≡ ok f
    → All IsByte f.payload.vals × IsAccepted f.function f.payload
unfolding parse_packet
parsed (a ∷ (b ∷ (c ∷ (d ∷ (e ∷ (g ∷ (i ∷ (j ∷ (x ∷ xs))))))))) spare f
      (_, (_, (_, (_, (_, (_, (_, (_, bytes)))))))) eq =
    let (same, _, accepted) = finish_frame_inverts _ f eq in
    rw same (bytes, check_data_length-IsAccepted _ _ accepted)
parsed _ spare f bytes eq = cc

-- A frame that `NewTCPFrame` makes of bytes has bytes as its data, and an accepted shape.
pub new_tcp_frame-IsAccepted :
    (p : Slice) (f : TcpFrame)
    → All IsByte p.vals
    → new_tcp_frame p ≡ ok f
    → All IsByte f.payload.vals × IsAccepted f.function f.payload
unfolding new_tcp_frame
new_tcp_frame-IsAccepted p f bytes e = parsed p.vals p.spare f bytes e
