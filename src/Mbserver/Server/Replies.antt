-- ===== src/Mbserver/Server/Replies.antt =====
-- What the response of `handle` says to a Modbus TCP client.
use virtual_bess.Prelude.{ℕ, ◌+◌, ◌<◌, List, [], ◌∷◌, none, some, ◌≡◌, refl, arith, bit_or, bit_and}
use virtual_bess.Prelude.Bits.{or-top, and-top}
use virtual_bess.Prelude.Go.{done, of_list}
use virtual_bess.Mbserver.Exceptions.{Exception, success, illegal_function, code, is_success}
use virtual_bess.Mbserver.Frame.{view, get_exception}
use virtual_bess.Mbserver.Frame.Tcp.{
  TcpFrame, set_length, tcp_framer, tcp_set_data, tcp_set_exception,
}
use virtual_bess.Mbserver.Functions.{Reply, Handler}
use virtual_bess.Mbserver.Server.{Table, handle, respond, set_exception_unless_success}

-- A response repeats the header of its request.
pub record Answers (f g : TcpFrame) : Type 0 where
  pub transaction : g.transaction_identifier ≡ f.transaction_identifier
  pub protocol : g.protocol_identifier ≡ f.protocol_identifier
  pub device : g.device ≡ f.device

-- the frame that `handle` sends for a reply
abbrev pub reply_frame : TcpFrame → List ℕ → Exception → TcpFrame
reply_frame f response e = set_exception_unless_success e (tcp_framer.set_data response f)

reply_frame-Answers :
    (f : TcpFrame) (response : List ℕ) (e : Exception) → Answers f (reply_frame f response e)
unfolding set_exception_unless_success is_success tcp_set_data tcp_set_exception
reply_frame-Answers f response success = record {
  transaction = refl;
  protocol = refl;
  device = refl;
}
reply_frame-Answers f response _ = record { transaction = refl; protocol = refl; device = refl }

-- the function code of an exception response, and the test for one
marked : (fn : ℕ) → fn < 128 → (bit_and (bit_or fn 0x80) 0x80 ≡ 128) × (bit_or fn 0x80 ≡ fn + 128)
marked fn h =
    let set : bit_or fn 0x80 ≡ fn + 128 = ground (arith, or-top fn (omega arith)) in
    (omega (arith, and-top (bit_or fn 0x80) (omega (arith, set)), set), set)

unmarked : (fn : ℕ) → fn < 128 → bit_and fn 0x80 ≡ 0
unmarked fn h = omega (arith, and-top fn (omega arith))

abbrev exception_frame : TcpFrame → List ℕ → Exception → TcpFrame
exception_frame f response e = tcp_framer.set_exception e (tcp_framer.set_data response f)

get_exception-exception_frame :
    (f : TcpFrame) (response : List ℕ) (e : Exception)
    → f.function < 128
    → get_exception (exception_frame f response e) ≡ done (code e)
unfolding get_exception tcp_set_data tcp_set_exception set_length
get_exception-exception_frame f response e h = rw ((marked f.function h).0) refl

get_exception-reply_frame :
    (f : TcpFrame) (response : List ℕ) (e : Exception)
    → f.function < 128
    → get_exception (reply_frame f response e) ≡ done (code e)
unfolding set_exception_unless_success is_success
get_exception-reply_frame f response success h =
    unfold get_exception in
    unfold tcp_set_data in unfold set_length in unfold code in rw (unmarked f.function h) refl
get_exception-reply_frame f response illegal_function h =
    get_exception-exception_frame f response _ h
get_exception-reply_frame f response _ h = get_exception-exception_frame f response _ h

module _ {S : Type 0} (table : Table S) (s : S) (f : TcpFrame) (low : f.function < 128) where
  -- A registered handler's reply reaches the client, for a request with a function code below 128:
  -- `handle` keeps the handler's state, the response repeats the header of the request,
  -- `GetException` of it is the code of the handler's exception, and if that is Success, the
  -- response has the function code of the request and the handler's data.
  pub handle_replies :
      (h : Handler S) (r : Reply S)
      → table f.function ≡ some h
      → h s (view f) ≡ done r
      → (g : TcpFrame) × (handle table s f ≡ done (r.state, g))
        × Answers f g
        × (get_exception g ≡ done (code r.exception))
        × (r.exception ≡ success → (g.function ≡ f.function) × (g.payload ≡ of_list r.response))
  unfolding handle respond
  handle_replies h r found run = (
    reply_frame f r.response r.exception,
    rw (found, run) refl,
    reply_frame-Answers f r.response r.exception,
    get_exception-reply_frame f r.response r.exception low,
    λ e. rw e (
        unfold set_exception_unless_success in
        unfold is_success in unfold tcp_set_data in unfold set_length in (refl, refl)),
  )

  -- A function code without a handler, below 128, changes nothing and is answered with the function
  -- code plus 128 and the code of IllegalFunction.
  handle_unregistered :
      table f.function ≡ none
      → (g : TcpFrame) × (handle table s f ≡ done (s, g))
        × Answers f g
        × (g.function ≡ f.function + 128)
        × (get_exception g ≡ done (code illegal_function))
        × (g.payload ≡ of_list (code illegal_function ∷ []))
  unfolding handle respond set_exception_unless_success is_success
  handle_unregistered absent =
      let g = tcp_framer.set_exception illegal_function f in
      (
        g,
        rw absent refl,
        unfold tcp_set_exception in record { transaction = refl; protocol = refl; device = refl },
        unfold tcp_set_exception in unfold set_length in (marked f.function low).1,
        unfold get_exception in
            unfold tcp_set_exception in unfold set_length in rw ((marked f.function low).0) refl,
        unfold tcp_set_exception in unfold set_length in refl,
      )
