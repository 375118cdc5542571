-- ===== src/Tests/Server.antt =====
-- The server on frames and on streams.
use virtual_bess.Prelude.{
  ℕ, ◌≤◌, List, [], ◌∷◌, ◌≡◌, ◌≢◌, ◌⊎◌, ◌↔◌, refl, arith, length, be16, replicate,
}
use virtual_bess.Prelude.Go.{done, of_list}
use virtual_bess.Mbserver.Exceptions.{Exception, success, code}
use virtual_bess.Mbserver.Frame.{get_exception}
use virtual_bess.Mbserver.Frame.Tcp.{TcpFrame, tcp_framer, check_data_length}
use virtual_bess.Mbserver.Functions.{Memory, Handler, answer}
use virtual_bess.Mbserver.Functions.Safety.{IsSized}
use virtual_bess.Mbserver.Server.{
  new_memory, handle, handler, default_table, no_handlers, register_function_handler,
}
use virtual_bess.Mbserver.Server.Replies.{Answers, handle_replies}
use virtual_bess.Mbserver.Server.Sessions.{handler_serves}
use virtual_bess.Mbserver.Server.Mbap.{crashed, hung_up, still_open, read_packet, serve_conn}
use virtual_bess.Mbserver.Server.Mbap.Framing.{
  read_packet-crashed, IsReceived, stream_of, serve_conn-stream_of,
}
use virtual_bess.Mbserver.Server.Mbap.Ends.{serve_conn_ends}
use virtual_bess.Tests.Frames.{
  read_packet_bytes, read_frame, read_packet_parses, read_packet_are_bytes,
}

new_memory-IsSized : IsSized new_memory
unfolding new_memory
new_memory-IsSized = record {
  discrete_inputs = refl;
  coils = refl;
  holding_registers = refl;
  input_registers = refl;
}

handler_serves_example :
    (m' : Memory) × (responses : List (List ℕ)) × (handler default_table new_memory
        (read_frame ∷ (read_frame ∷ []))
      ≡ done (m', responses))
    × (length responses ≡ 2)
    × IsSized m'
handler_serves_example =
    handler_serves new_memory (read_frame ∷ (read_frame ∷ [])) new_memory-IsSized (
      (of_list read_packet_bytes, read_packet_are_bytes, read_packet_parses),
      ((of_list read_packet_bytes, read_packet_are_bytes, read_packet_parses), tt),
    )

-- a handler that answers one byte
abbrev one_byte : Handler Memory
one_byte m v = answer m (7 ∷ [])

handle_replies_example :
    (g : TcpFrame) × (handle
        (register_function_handler 3 one_byte no_handlers)
        new_memory
        read_frame
      ≡ done (new_memory, g))
    × Answers read_frame g
    × (get_exception g ≡ done (code success))
    × (◌≡◌ {A = Exception} success success → (g.function ≡ 3) × (g.payload ≡ of_list (7 ∷ [])))
handle_replies_example =
    handle_replies (register_function_handler 3 one_byte no_handlers) new_memory read_frame
      (omega arith) one_byte (record { state = new_memory; response = 7 ∷ []; exception = success })
      (unfold register_function_handler in refl) refl

read_packet-crashed_example :
    (read_packet (0 ∷ (1 ∷ (0 ∷ (0 ∷ (0 ∷ (0 ∷ (1 ∷ []))))))) ≡ crashed)
    ↔ ((be16 0 0 ≡ 0) ⊎ (65530 ≤ be16 0 0))
read_packet-crashed_example = read_packet-crashed 0 1 0 0 0 0 1 [] (omega arith) (omega arith)

-- the same frame in the buffer of a connection
abbrev buffered : TcpFrame
buffered = record read_frame {
  payload = record { vals = read_frame.payload.vals; spare = replicate 500 0 };
}

buffered-IsReceived : IsReceived buffered
buffered-IsReceived = record {
  well_formed = record {
    transaction = omega arith;
    protocol = omega arith;
    fits = omega arith;
    counted = refl;
    accepted = unfold check_data_length in refl;
  };
  some_data = omega arith;
  fits = omega arith;
  buffer = refl;
}

serve_conn-stream_of_example :
    serve_conn 3 (stream_of (buffered ∷ (buffered ∷ []))) ≡ (buffered ∷ (buffered ∷ []), hung_up)
serve_conn-stream_of_example =
    serve_conn-stream_of (buffered ∷ (buffered ∷ [])) 3
      (buffered-IsReceived, (buffered-IsReceived, tt)) (omega arith)

serve_conn_ends_example : (serve_conn 13 read_packet_bytes).1 ≢ still_open
serve_conn_ends_example = serve_conn_ends 13 read_packet_bytes (omega arith)
