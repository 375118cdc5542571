-- ===== src/Mbserver/Frame/Tcp/RoundTrip.antt =====
-- `NewTCPFrame` and `TCPFrame.Bytes` are inverse to one another.
use virtual_bess.Prelude.{
  ℕ, ◌+◌, ◌≤◌, List, [], ◌∷◌, ◌≡◌, refl, arith, All, IsByte, IsU16, length, be16,
}
use virtual_bess.Prelude.Go.{ok, Slice, of_list, len}
use virtual_bess.Mbserver.Frame.Tcp.{
  TcpFrame, check_data_length, finish_frame, parse_packet, new_tcp_frame, tcp_bytes,
}

-- A frame that `NewTCPFrame` can return.
pub record IsWellFormed (f : TcpFrame) : Type 0 where
  pub transaction : IsU16 f.transaction_identifier
  pub protocol : IsU16 f.protocol_identifier
  pub fits : IsU16 f.frame_length
  pub counted : f.frame_length ≡ len f.payload + 2
  pub accepted : check_data_length f.function f.payload ≡ ok tt

finish_frame_accepts :
    (f : TcpFrame)
    → f.frame_length ≡ len f.payload + 2
    → check_data_length f.function f.payload ≡ ok tt
    → finish_frame f ≡ ok f
unfolding finish_frame
finish_frame_accepts f h k = ground arith

pub finish_frame_inverts :
    (f g : TcpFrame)
    → finish_frame f ≡ ok g
    → (g ≡ f)
      × (f.frame_length ≡ len f.payload + 2)
      × (check_data_length f.function f.payload ≡ ok tt)
unfolding finish_frame
finish_frame_inverts f g h = ground arith

-- The same in a buffer that is longer than the packet.
pub new_tcp_frame_in_buffer :
    (f : TcpFrame)
    → IsWellFormed f
    → 1 ≤ len f.payload
    → new_tcp_frame (record { vals = tcp_bytes f; spare = f.payload.spare }) ≡ ok f
new_tcp_frame_in_buffer f w some = split f.payload.vals f.payload.spare refl some
  where
    split :
        (vals spare : List ℕ)
        → f.payload ≡ record { vals = vals; spare = spare }
        → 1 ≤ length vals
        → new_tcp_frame (record { vals = tcp_bytes f; spare = f.payload.spare }) ≡ ok f
    split [] spare e h = absurd (omega arith)
    split (x ∷ xs) spare e h =
        unfold new_tcp_frame in
        unfold parse_packet in
        unfold tcp_bytes in ground (arith, finish_frame_accepts f w.counted w.accepted)

-- Parsing what `Bytes` wrote gives the frame back, with the data alone in its backing array.
-- A frame with no data is shorter than the nine bytes that `NewTCPFrame` wants.
pub new_tcp_frame-tcp_bytes :
    (f : TcpFrame) (x : ℕ) (xs : List ℕ)
    → IsWellFormed f
    → f.payload ≡ of_list (x ∷ xs)
    → new_tcp_frame (of_list (tcp_bytes f)) ≡ ok f
unfolding new_tcp_frame parse_packet tcp_bytes
new_tcp_frame-tcp_bytes f x xs w e = ground (arith, finish_frame_accepts f w.counted w.accepted)

parse_packet_inverts :
    (packet spare : List ℕ) (f : TcpFrame)
    → All IsByte packet
    → parse_packet packet spare ≡ ok f
    → (tcp_bytes f ≡ packet) × IsWellFormed f
unfolding parse_packet tcp_bytes
parse_packet_inverts (a ∷ (b ∷ (c ∷ (d ∷ (e ∷ (g ∷ (i ∷ (j ∷ (x ∷ xs))))))))) spare f h eq =
    let g' : TcpFrame = record {
      transaction_identifier = be16 a b;
      protocol_identifier = be16 c d;
      frame_length = be16 e g;
      device = i;
      function = j;
      payload = record { vals = x ∷ xs; spare = spare };
    } in
    let (same, counted, accepted) = finish_frame_inverts g' f eq in
    rw same (
      ground arith,
      record {
        transaction = omega arith;
        protocol = omega arith;
        fits = omega arith;
        counted = counted;
        accepted = accepted;
      },
    )
parse_packet_inverts _ spare f h eq = cc

-- Whatever packet of bytes `NewTCPFrame` accepts, `Bytes` of the frame is that packet again, and
-- the frame is well formed.
pub tcp_bytes-new_tcp_frame :
    (p : Slice) (f : TcpFrame)
    → All IsByte p.vals
    → new_tcp_frame p ≡ ok f
    → (tcp_bytes f ≡ p.vals) × IsWellFormed f
unfolding new_tcp_frame
tcp_bytes-new_tcp_frame p f h e = parse_packet_inverts p.vals p.spare f h e
