-- ===== src/Tests/Protocols.antt =====
-- The CAN frames and the XN3477 endpoint.
use virtual_bess.Prelude.{
  ℕ, List, [], ◌∷◌, ◌≡◌, inr, refl, arith, All, some, none, Option, ◌==◌, if◌then◌else◌, false,
  uint16,
}
use virtual_bess.Prelude.Go.{done}
use virtual_bess.Mbserver.Exceptions.{success}
use virtual_bess.Mbserver.Frame.{uint16_to_bytes, register_and_number}
use virtual_bess.Mbserver.Functions.{answer}
use virtual_bess.Simulator.Bank.{SlaveBank, new_slave_bank}
use virtual_bess.Protocol.Can.{build_bms_frames}
use virtual_bess.Protocol.Can.Signals.{Signal, signals, receive, receive-build_bms_frames}
use virtual_bess.Protocol.Xn3477.Endpoint.{Endpoint, write, handle_read, handle_write_multiple}
use virtual_bess.Protocol.Xn3477.Endpoint.Controls.{write_control}
use virtual_bess.Protocol.Xn3477.Endpoint.Replies.{request_to, write_multiple_then_read}

receive-build_bms_frames_example :
    All
      (λ (s : Signal). receive (build_bms_frames uint16) s.id s.offset ≡ some (uint16 s.register))
      signals
receive-build_bms_frames_example = receive-build_bms_frames uint16 (λ a. omega arith)

-- a command to close the high voltage
abbrev close_command : List ℕ
close_command = 0 ∷ (3 ∷ (0 ∷ (0 ∷ (0 ∷ (0 ∷ (0 ∷ (0 ∷ [])))))))

-- a simulator that keeps its last command
abbrev keep : Option (ℕ × ℕ × ℕ) → ℕ → ℕ → ℕ → Option (ℕ × ℕ × ℕ)
keep w slave_id register value = some (slave_id, register, value)

-- the bank of the BAU alone
abbrev bau_bank : SlaveBank
bau_bank = new_slave_bank 1 false

abbrev bau_endpoint : Endpoint (Option (ℕ × ℕ × ℕ))
bau_endpoint = record {
  banks = λ id. if id == 1 then some bau_bank else none;
  bau_slave_id = 1;
  bms_slave_id = 9;
  sim = none;
}

write_control_example :
    (ep' : Endpoint (Option (ℕ × ℕ × ℕ))) × (write keep bau_endpoint 1 0x3001 2
      ≡ done (ep', success))
    × (ep'.sim ≡ some (9, 40002, 1))
write_control_example =
    write_control keep bau_endpoint bau_bank 0x3001 2 40002 refl (unfold new_slave_bank in refl)
      (inr (inr (refl, refl, refl)))

write_multiple_then_read_example :
    (ep' : Endpoint (Option (ℕ × ℕ × ℕ))) × (handle_write_multiple keep bau_endpoint
        (request_to 1 0x3000 2 (4 ∷ uint16_to_bytes (5 ∷ (1 ∷ []))) [])
      ≡ answer ep' (register_and_number 0x3000 2 []))
    × (handle_read keep ep' (request_to 1 0x3000 2 [] [])
        ≡ answer ep' (4 ∷ uint16_to_bytes (5 ∷ (1 ∷ []))))
write_multiple_then_read_example =
    write_multiple_then_read keep bau_endpoint bau_bank 1 0x3000 2 (5 ∷ (1 ∷ [])) 4 [] [] refl
      (unfold new_slave_bank in refl) (omega arith, (omega arith, tt)) refl (omega arith)
