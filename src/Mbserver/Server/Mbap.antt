-- ===== src/Mbserver/Server/Mbap.antt =====
-- internal/mbserver/servetcp.go: one connection of `accept`, which cuts the stream of bytes into
-- packets by the length field of the MBAP header. The bytes that a client sends until it closes the
-- connection are a list.
pub mod Framing
pub mod Ends
use virtual_bess.Prelude.{
  ℕ, zero, suc, ◌+◌, ◌-◌, List, [], ◌∷◌, Option, none, some, uint16, be16, ltb, ◌==◌, ◌||◌,
  if◌then◌else◌, length, get_or, take, drop, replicate, ◌++◌,
}
use virtual_bess.Prelude.Go.{Slice, Outcome, ok, err, crash}
use virtual_bess.Mbserver.Frame.{FrameError}
use virtual_bess.Mbserver.Frame.Tcp.{TcpFrame, new_tcp_frame}

-- What a server finds on its connection: a packet and the rest of the stream, a reason to close the
-- connection, or a panic.
pub data Received {ℓ} (A : Type ℓ) : Type ℓ where
  received : A → List ℕ → Received A
  closed : Received A
  crashed : Received A

-- `io.ReadFull`
unfoldable pub read_full : ℕ → List ℕ → Option (List ℕ × List ℕ)
read_full n stream = if ltb (length stream) n then none else some (take n stream, drop n stream)

abbrev pub mbap_header_length : ℕ
mbap_header_length = 7

abbrev pub max_tcp_frame_length : ℕ
max_tcp_frame_length = 260

-- `bytesNeeded` behind its decrement, which wraps
abbrev pub bytes_needed : List ℕ → ℕ
bytes_needed header = uint16 (be16 (get_or header 4 0) (get_or header 5 0) + 65535)

-- the packet of a header and what the second read returned, in a buffer of 512 bytes
abbrev pub whole_packet : List ℕ → Option (List ℕ × List ℕ) → Received Slice
whole_packet header none = closed
whole_packet header (some (bytes, rest)) =
    received
      (record {
        vals = header ++ bytes;
        spare = replicate (512 - (mbap_header_length + length bytes)) 0;
      })
      rest

-- the packet behind its header: the upper bound of the slice expression wraps
unfoldable pub read_body : List ℕ → ℕ → List ℕ → Received Slice
read_body header needed stream =
    if ltb (uint16 (mbap_header_length + needed)) mbap_header_length
    then crashed
    else whole_packet header
        (read_full (uint16 (mbap_header_length + needed) - mbap_header_length) stream)

-- the tests on the length field
abbrev pub behind_header : Option (List ℕ × List ℕ) → Received Slice
behind_header none = closed
behind_header (some (header, rest)) =
    if ltb max_tcp_frame_length (uint16 (bytes_needed header + mbap_header_length))
    then closed
    else if bytes_needed header == 0
    then closed
    else read_body header (bytes_needed header) rest

-- the body of the loop up to the packet
unfoldable pub read_packet : List ℕ → Received Slice
read_packet stream = behind_header (read_full mbap_header_length stream)

-- How a connection ends: closed, or with a panic, or still open when the fuel is out.
pub data Ending : Type 0 where
  hung_up : Ending
  panicked : Ending
  still_open : Ending

abbrev pub send : Outcome FrameError TcpFrame → List TcpFrame × Ending → List TcpFrame × Ending
send (ok f) (fs, e) = (f ∷ fs, e)
send (err _) _ = ([], hung_up)
send crash _ = ([], panicked)

abbrev pub serve_packet :
    Received Slice → (List ℕ → List TcpFrame × Ending) → List TcpFrame × Ending
serve_packet closed again = ([], hung_up)
serve_packet crashed again = ([], panicked)
serve_packet (received p rest) again = send (new_tcp_frame p) (again rest)

-- the frames that one connection hands to `requestChan`, in order, and how it ends
unfoldable pub serve_conn : ℕ → List ℕ → List TcpFrame × Ending
serve_conn zero stream = ([], still_open)
serve_conn (suc fuel) stream = serve_packet (read_packet stream) (serve_conn fuel)
