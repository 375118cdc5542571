-- ===== src/Mbserver/Server/RtuOverTcp.antt =====
-- internal/mbserver/servertuovertcp.go: RTU frames on a TCP connection. They have no length field:
-- the length of a request follows from its function code.
pub mod Requests
use virtual_bess.Prelude.{
  ℕ, zero, suc, ◌+◌, ◌-◌, List, [], ◌∷◌, ◌++◌, Option, none, some, ltb, ◌==◌, ◌||◌, if◌then◌else◌,
  length, get_or, replicate,
}
use virtual_bess.Prelude.Go.{Slice, Outcome, ok, err, crash}
use virtual_bess.Mbserver.Frame.{FrameError}
use virtual_bess.Mbserver.Frame.Rtu.{RtuFrame, new_rtu_frame}
use virtual_bess.Mbserver.Server.Mbap.{
  Received, received, closed, crashed, Ending, hung_up, panicked, still_open, read_full,
}

abbrev pub max_rtu_frame_length : ℕ
max_rtu_frame_length = 256

abbrev pub rtu_fixed_request_length : ℕ
rtu_fixed_request_length = 8

abbrev pub rtu_write_multiple_prefix_length : ℕ
rtu_write_multiple_prefix_length = 7

-- the packet of a prefix and what the second read returned, in a buffer of 256 bytes
abbrev pub whole_request : List ℕ → Option (List ℕ × List ℕ) → Received Slice
whole_request prefix none = closed
whole_request prefix (some (bytes, rest)) =
    received
      (record {
        vals = prefix ++ bytes;
        spare =
            replicate (max_rtu_frame_length - (rtu_write_multiple_prefix_length + length bytes)) 0;
      })
      rest

abbrev pub behind_prefix : Option (List ℕ × List ℕ) → Received Slice
behind_prefix none = closed
behind_prefix (some (prefix, rest)) =
    if get_or prefix 1 0 == 15 || (get_or prefix 1 0 == 16)
    then if ltb max_rtu_frame_length (rtu_write_multiple_prefix_length + get_or prefix 6 0 + 2)
      then closed
      else whole_request prefix (
          read_full
            (rtu_write_multiple_prefix_length
              + get_or prefix 6 0
              + 2
              - rtu_write_multiple_prefix_length)
            rest)
    else whole_request prefix
        (read_full (rtu_fixed_request_length - rtu_write_multiple_prefix_length) rest)

-- `readRTURequest`
unfoldable pub read_rtu_request : List ℕ → Received Slice
read_rtu_request stream = behind_prefix (read_full rtu_write_multiple_prefix_length stream)

abbrev pub send_rtu : Outcome FrameError RtuFrame → List RtuFrame × Ending → List RtuFrame × Ending
send_rtu (ok f) (fs, e) = (f ∷ fs, e)
send_rtu (err _) _ = ([], hung_up)
send_rtu crash _ = ([], panicked)

abbrev pub serve_request :
    Received Slice → (List ℕ → List RtuFrame × Ending) → List RtuFrame × Ending
serve_request closed again = ([], hung_up)
serve_request crashed again = ([], panicked)
serve_request (received p rest) again = send_rtu (new_rtu_frame p) (again rest)

-- `serveRTUOverTCPConn`
unfoldable pub serve_rtu_over_tcp_conn : ℕ → List ℕ → List RtuFrame × Ending
serve_rtu_over_tcp_conn zero stream = ([], still_open)
serve_rtu_over_tcp_conn (suc fuel) stream =
    serve_request (read_rtu_request stream) (serve_rtu_over_tcp_conn fuel)
