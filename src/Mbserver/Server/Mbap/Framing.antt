-- ===== src/Mbserver/Server/Mbap/Framing.antt =====
-- The stream of a Modbus TCP connection is cut where the frames end.
use virtual_bess.Prelude.{
  ℕ, zero, suc, ◌+◌, ◌-◌, ◌≤◌, ◌<◌, List, [], ◌∷◌, ◌++◌, ◌≡◌, ◌⊎◌, ◌↔◌, refl, sym, ap, ◌∙◌, arith,
  All, IsByte, some, uint16, be16, hi_byte, lo_byte, length, get_or, length-append, take-append,
  drop-append, replicate,
}
use virtual_bess.Prelude.Go.{len}
use virtual_bess.Mbserver.Frame.Tcp.{TcpFrame, tcp_bytes}
use virtual_bess.Mbserver.Frame.Tcp.RoundTrip.{IsWellFormed, new_tcp_frame_in_buffer}
use virtual_bess.Mbserver.Server.Mbap.{
  received, crashed, read_full, read_body, read_packet, bytes_needed, behind_header, hung_up,
  serve_conn,
}

-- the length field of a stream
abbrev pub length_field : List ℕ → ℕ
length_field stream = be16 (get_or stream 4 0) (get_or stream 5 0)

pub read_full_append :
    (xs rest : List ℕ) (n : ℕ) → length xs ≡ n → read_full n (xs ++ rest) ≡ some (xs, rest)
unfolding read_full
read_full_append xs rest n e =
    rw (sym e)
      (rw (take-append xs rest, drop-append xs rest) (ground (arith, length-append xs rest)))

-- On a stream that has a header, the server panics exactly if the length field is 0, or 65530 or
-- more.
pub read_packet-crashed :
    (a b c d hi lo unit : ℕ) (rest : List ℕ)
    → IsByte hi
    → IsByte lo
    → (read_packet (a ∷ (b ∷ (c ∷ (d ∷ (hi ∷ (lo ∷ (unit ∷ rest))))))) ≡ crashed)
      ↔ ((be16 hi lo ≡ 0) ⊎ (65530 ≤ be16 hi lo))
unfolding read_packet read_full read_body
read_packet-crashed a b c d hi lo unit rest h l = (λ e. ground arith, λ e. ground arith)

read_body_exact :
    (header bytes rest : List ℕ) (n : ℕ)
    → length bytes ≡ n
    → n ≤ 253
    → read_body header n (bytes ++ rest)
      ≡ received (record { vals = header ++ bytes; spare = replicate (512 - (7 + n)) 0 }) rest
unfolding read_body
read_body_exact header bytes rest n e h =
    let bound : uint16 (7 + n) ≡ 7 + n = omega arith in
    let size : 7 + n - 7 ≡ n = omega arith in
    rw (bound, size, read_full_append bytes rest n e) (ground (arith, e))

-- A frame as the server makes it from a packet that it accepts.
pub record IsReceived (f : TcpFrame) : Type 0 where
  pub well_formed : IsWellFormed f
  pub some_data : 1 ≤ len f.payload
  pub fits : len f.payload ≤ 252
  pub buffer : f.payload.spare ≡ replicate (512 - (7 + (1 + len f.payload))) 0

behind_header_exact :
    (header stream : List ℕ) (n : ℕ)
    → bytes_needed header ≡ n
    → 1 ≤ n
    → n ≤ 253
    → behind_header (some (header, stream)) ≡ read_body header n stream
behind_header_exact header stream n e low high = rw e (ground arith)

abbrev header_of : TcpFrame → List ℕ
header_of f =
    hi_byte f.transaction_identifier
    ∷ (lo_byte f.transaction_identifier
        ∷ (hi_byte f.protocol_identifier
            ∷ (lo_byte f.protocol_identifier
                ∷ (hi_byte (uint16 (2 + len f.payload))
                    ∷ (lo_byte (uint16 (2 + len f.payload)) ∷ (f.device ∷ []))))))

header_of_needed :
    (f : TcpFrame) → len f.payload ≤ 252 → bytes_needed (header_of f) ≡ 1 + len f.payload
header_of_needed f h = omega arith

read_packet-tcp_bytes :
    (f : TcpFrame) (rest : List ℕ)
    → IsReceived f
    → read_packet (tcp_bytes f ++ rest)
      ≡ received (record { vals = tcp_bytes f; spare = f.payload.spare }) rest
unfolding read_packet tcp_bytes
read_packet-tcp_bytes f rest p =
    let body : List ℕ = f.function ∷ f.payload.vals in
    rw (read_full_append (header_of f) (body ++ rest) 7 refl) (
      behind_header_exact (header_of f) (body ++ rest) (1 + len f.payload)
        (header_of_needed f p.fits) (omega arith) (omega (arith, p.fits))
      ∙ read_body_exact (header_of f) body rest (1 + len f.payload) (omega arith)
          (omega (arith, p.fits))
      ∙ ap (λ spare. received (record { vals = header_of f ++ body; spare = spare }) rest)
          (sym p.buffer))

-- the bytes of frames, one after another
abbrev pub stream_of : List TcpFrame → List ℕ
stream_of [] = []
stream_of (f ∷ fs) = tcp_bytes f ++ stream_of fs

-- The connection hands on exactly the frames that a client wrote, in order, and is closed behind
-- them without a panic. Each frame is well formed, has data, and fits the 260 bytes of a packet.
pub serve_conn-stream_of :
    (fs : List TcpFrame) (fuel : ℕ)
    → All IsReceived fs
    → length fs < fuel
    → serve_conn fuel (stream_of fs) ≡ (fs, hung_up)
unfolding serve_conn
serve_conn-stream_of fs zero hs h = absurd (omega arith)
serve_conn-stream_of [] (suc fuel) hs h = unfold read_packet in unfold read_full in refl
serve_conn-stream_of (f ∷ fs) (suc fuel) (p, ps) h =
    rw
      (
        read_packet-tcp_bytes f (stream_of fs) p,
        new_tcp_frame_in_buffer f p.well_formed p.some_data,
        serve_conn-stream_of fs fuel ps (omega arith),
      )
      refl
