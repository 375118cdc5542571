-- ===== src/Mbserver/Server/Mbap/Ends.antt =====
-- Every stream that ends makes the loop of a connection end.
use virtual_bess.Prelude.{
  ℕ, zero, suc, ◌+◌, ◌-◌, ◌≤◌, ◌<◌, List, ◌≡◌, ◌≢◌, refl, sym, arith, Option, none, some, uint16,
  length, length-drop,
}
use virtual_bess.Prelude.Go.{Slice, Outcome, ok, err, crash}
use virtual_bess.Mbserver.Frame.{FrameError}
use virtual_bess.Mbserver.Frame.Tcp.{TcpFrame, new_tcp_frame}
use virtual_bess.Mbserver.Server.Mbap.{
  Received, received, closed, crashed, read_full, read_body, read_packet, behind_header,
  whole_packet, bytes_needed, Ending, still_open, send, serve_packet, serve_conn,
}

read_full_shrinks :
    (n : ℕ) (stream xs rest : List ℕ)
    → read_full n stream ≡ some (xs, rest)
    → length rest + n ≡ length stream
unfolding read_full
read_full_shrinks n stream xs rest e = ground (arith, length-drop n stream)

whole_packet_rest :
    (header : List ℕ) (n : ℕ) (stream : List ℕ) (p : Slice) (rest : List ℕ)
    → whole_packet header (read_full n stream) ≡ received p rest
    → length rest ≤ length stream
whole_packet_rest header n stream p rest = split (read_full n stream) refl
  where
    split :
        (o : Option (List ℕ × List ℕ))
        → read_full n stream ≡ o
        → whole_packet header o ≡ received p rest
        → length rest ≤ length stream
    split none e h = cc
    split (some (xs, rest')) e h =
        let same : rest' ≡ rest = cc in
        rw (sym same) (omega (arith, read_full_shrinks n stream xs rest' e))

behind_header_rest :
    (header stream : List ℕ) (p : Slice) (rest : List ℕ)
    → behind_header (some (header, stream)) ≡ received p rest
    → length rest ≤ length stream
unfolding read_body
behind_header_rest header stream p rest h =
    whole_packet_rest header (uint16 (7 + bytes_needed header) - 7) stream p rest (ground arith)

read_packet_shrinks :
    (stream : List ℕ) (p : Slice) (rest : List ℕ)
    → read_packet stream ≡ received p rest
    → length rest < length stream
unfolding read_packet
read_packet_shrinks stream p rest = split (read_full 7 stream) refl
  where
    split :
        (o : Option (List ℕ × List ℕ))
        → read_full 7 stream ≡ o
        → behind_header o ≡ received p rest
        → length rest < length stream
    split none e h = cc
    split (some (header, more)) e h =
        omega
          (arith, read_full_shrinks 7 stream header more e, behind_header_rest header more p rest h)

abbrev IsOver : List TcpFrame × Ending → Type 0
IsOver (fs, e) = e ≢ still_open

send-IsOver :
    (o : Outcome FrameError TcpFrame) (more : List TcpFrame × Ending)
    → IsOver more
    → IsOver (send o more)
send-IsOver (ok f) (fs, e) h = h
send-IsOver (err x) more h = λ e. cc
send-IsOver crash more h = λ e. cc

serve_packet-IsOver :
    (stream : List ℕ) (again : List ℕ → List TcpFrame × Ending)
    → ((rest : List ℕ) → length rest < length stream → IsOver (again rest))
    → IsOver (serve_packet (read_packet stream) again)
serve_packet-IsOver stream again h = split (read_packet stream) refl
  where
    split : (r : Received Slice) → read_packet stream ≡ r → IsOver (serve_packet r again)
    split closed e = λ x. cc
    split crashed e = λ x. cc
    split (received p rest) e =
        send-IsOver (new_tcp_frame p) (again rest) (h rest (read_packet_shrinks stream p rest e))

-- More rounds than there are bytes are enough: whatever a client sends before it closes, the loop
-- of the connection ends, closed or with a panic.
pub serve_conn_ends :
    (fuel : ℕ) (stream : List ℕ) → length stream < fuel → (serve_conn fuel stream).1 ≢ still_open
unfolding serve_conn
serve_conn_ends zero stream h = absurd (omega arith)
serve_conn_ends (suc fuel) stream h =
    serve_packet-IsOver stream (serve_conn fuel)
      λ rest shorter. serve_conn_ends fuel rest (omega arith)
