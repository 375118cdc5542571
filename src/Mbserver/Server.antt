-- ===== src/Mbserver/Server.antt =====
-- internal/mbserver/server.go: the table of function handlers and the loop that serves the requests
-- one after another.
pub mod Replies
pub mod Sessions
pub mod Mbap
pub mod RtuOverTcp
use virtual_bess.Prelude.{
  ℕ, ◌+◌, List, [], ◌∷◌, Option, none, some, ltb, leb, ◌==◌, not, if◌then◌else◌, length, byte,
}
use virtual_bess.Prelude.Go.{Run, done, panic, ◌>>=◌, Slice}
use virtual_bess.Prelude.Array.{Array, zeros}
use virtual_bess.Mbserver.Exceptions.{Exception, success, illegal_function, is_success}
use virtual_bess.Mbserver.Frame.{Framer, View, view}
use virtual_bess.Mbserver.Functions.{
  Memory, Reply, Handler, read_coils, read_discrete_inputs, read_holding_registers,
  read_input_registers, write_single_coil, write_holding_register, write_multiple_coils,
  write_holding_registers,
}

-- The array `function` of `Server`: a handler, or nil, for each function code.
abbrev pub Table : Type 0 → Type 0
Table S = ℕ → Option (Handler S)

-- the memory areas that `NewServer` makes
unfoldable pub new_memory : Memory
new_memory = record {
  discrete_inputs = zeros 65536;
  coils = zeros 65536;
  holding_registers = zeros 65536;
  input_registers = zeros 65536;
}

-- `if exception != &Success { response.SetException(exception) }`
unfoldable pub set_exception_unless_success : {F : Type 0} ⦃f : Framer F⦄ → Exception → F → F
set_exception_unless_success ⦃f⦄ e response =
    if not (is_success e) then f.set_exception e response else response

module _ {S : Type 0} where
  unfoldable pub no_handlers : Table S
  no_handlers function = none

  -- `RegisterFunctionHandler`
  unfoldable pub register_function_handler : ℕ → Handler S → Table S → Table S
  register_function_handler func_code h table function =
      if function == func_code then some h else table function

  -- The two branches of `handle`. The frame is copied, so that the response keeps its other fields.
  unfoldable pub respond : {F : Type 0} ⦃f : Framer F⦄ → Option (Handler S) → S → F → Run (S × F)
  respond none s frame = done (s, set_exception_unless_success illegal_function frame)
  respond ⦃f⦄ (some h) s frame = do
    r ← h s (view frame)
    done (r.state, set_exception_unless_success r.exception (f.set_data r.response frame))

  -- `handle`
  unfoldable pub handle : {F : Type 0} ⦃f : Framer F⦄ → Table S → S → F → Run (S × F)
  handle ⦃f⦄ table s frame = respond (table (f.get_function frame)) s frame

  -- `handler`: the requests in the order in which they come out of the channel, each with the
  -- bytes of its response
  unfoldable pub handler :
      {F : Type 0} ⦃f : Framer F⦄ → Table S → S → List F → Run (S × List (List ℕ))
  handler table s [] = done (s, [])
  handler ⦃f⦄ table s (frame ∷ frames) = do
    (s1, response) ← handle table s frame
    (s2, written) ← handler table s1 frames
    done (s2, f.bytes response ∷ written)

-- the table that `NewServer` fills
unfoldable pub default_table : Table Memory
default_table = register_function_handler 16 write_holding_registers (
    register_function_handler 15 write_multiple_coils (
      register_function_handler 6 write_holding_register (
        register_function_handler 5 write_single_coil (
          register_function_handler 4 read_input_registers (
            register_function_handler 3 read_holding_registers (
              register_function_handler 2 read_discrete_inputs
                (register_function_handler 1 read_coils no_handlers)))))))
