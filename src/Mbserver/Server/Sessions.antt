-- ===== src/Mbserver/Server/Sessions.antt =====
-- The default server serves every frame that `NewTCPFrame` accepts, and every session of them.
use virtual_bess.Prelude.{
  ℕ, zero, suc, ◌≤◌, List, [], ◌∷◌, ◌≡◌, inl, inr, refl, arith, All, IsByte, length, some,
}
use virtual_bess.Mbserver.Frame.Tcp.Accepted.{IsAccepted, new_tcp_frame-IsAccepted}
use virtual_bess.Prelude.Go.{done, ok, Slice, len}
use virtual_bess.Mbserver.Frame.{view}
use virtual_bess.Mbserver.Frame.Tcp.{TcpFrame, tcp_framer, new_tcp_frame}
use virtual_bess.Mbserver.Functions.{Memory, Handler}
use virtual_bess.Mbserver.Functions.Safety.{IsSized, IsSafe}
use virtual_bess.Mbserver.Functions.Safety.Handlers.{
  read_coils-IsSafe, read_discrete_inputs-IsSafe, read_holding_registers-IsSafe,
  read_input_registers-IsSafe, write_single_coil-IsSafe, write_holding_register-IsSafe,
  write_multiple_coils-IsSafe, write_holding_registers-IsSafe,
}
use virtual_bess.Mbserver.Server.{
  Table, register_function_handler, handle, handler, default_table, set_exception_unless_success,
  respond,
}

-- The table has a handler for the function code, and the handler accepts data of this length.
abbrev Handles : Table Memory → ℕ → ℕ → Type 0
Handles table fn n =
    (h : Handler Memory) × (least : ℕ) × (table fn ≡ some h) × IsSafe h least × (least ≤ n)

Handles-few : (fn n : ℕ) → 1 ≤ fn → fn ≤ 6 → n ≡ 4 → Handles default_table fn n
unfolding default_table register_function_handler
Handles-few zero n h k e = absurd (omega arith)
Handles-few (suc zero) n h k e = (_, 4, refl, read_coils-IsSafe, omega arith)
Handles-few (suc (suc zero)) n h k e = (_, 4, refl, read_discrete_inputs-IsSafe, omega arith)
Handles-few (suc (suc (suc zero))) n h k e =
    (_, 4, refl, read_holding_registers-IsSafe, omega arith)
Handles-few (suc (suc (suc (suc zero)))) n h k e =
    (_, 4, refl, read_input_registers-IsSafe, omega arith)
Handles-few (suc (suc (suc (suc (suc zero))))) n h k e =
    (_, 4, refl, write_single_coil-IsSafe, omega arith)
Handles-few (suc (suc (suc (suc (suc (suc zero)))))) n h k e =
    (_, 4, refl, write_holding_register-IsSafe, omega arith)
Handles-few (suc (suc (suc (suc (suc (suc (suc fn))))))) n h k e = absurd (omega arith)

handles : (fn : ℕ) (d : Slice) → IsAccepted fn d → Handles default_table fn (len d)
handles fn d (inl (low, high, four)) = Handles-few fn (len d) low high four
handles fn d (inr (inl e, five)) = rw e (
    unfold default_table in
    unfold register_function_handler in (_, 5, refl, write_multiple_coils-IsSafe, five))
handles fn d (inr (inr e, five)) = rw e (
    unfold default_table in
    unfold register_function_handler in (_, 5, refl, write_holding_registers-IsSafe, five))

-- A frame that the constructor can have made.
abbrev pub Parsed : TcpFrame → Type 0
Parsed f = All IsByte f.payload.vals × IsAccepted f.function f.payload

pub handle_returns :
    (m : Memory) (f : TcpFrame)
    → IsSized m
    → Parsed f
    → (m' : Memory) × (g : TcpFrame) × (handle default_table m f ≡ done (m', g)) × IsSized m'
unfolding handle respond
handle_returns m f sized (bytes, accepted) =
    let (h, least, found, safe, enough) = handles f.function f.payload accepted in
    let (r, run, kept) = safe m (view f) sized bytes enough in
    (
      r.state,
      set_exception_unless_success r.exception (tcp_framer.set_data r.response f),
      rw (found, run) refl,
      kept,
    )

-- Every session of frames that `NewTCPFrame` accepted, from packets of bytes, is served by the default
-- handlers to the end: no handler panics, there is one response for each request, and the memory
-- areas keep their 65536 elements.
pub handler_serves :
    (m : Memory) (fs : List TcpFrame)
    → IsSized m
    → All (λ f. (p : Slice) × All IsByte p.vals × (new_tcp_frame p ≡ ok f)) fs
    → (m' : Memory) × (responses : List (List ℕ)) × (handler default_table m fs
        ≡ done (m', responses))
      × (length responses ≡ length fs)
      × IsSized m'
unfolding handler
handler_serves m [] sized hs = (m, [], refl, refl, sized)
handler_serves m (f ∷ fs) sized ((p, bytes, made), hs) =
    let (m1, g, run, sized1) = handle_returns m f sized (new_tcp_frame-IsAccepted p f bytes made) in
    let (m2, responses, rest, same, sized2) = handler_serves m1 fs sized1 hs in
    (m2, tcp_framer.bytes g ∷ responses, rw (run, rest) refl, omega (arith, same), sized2)
