-- ===== src/Mbserver/Functions/Request.antt =====
-- Requests as a client writes them: two words, then the rest of the data field.
use virtual_bess.Prelude.{ℕ, ◌+◌, List, [], ◌∷◌, ◌≡◌, arith, IsU16, length-append}
use virtual_bess.Prelude.Go.{done, from, upto}
use virtual_bess.Mbserver.Frame.{
  View, register_and_number, register_address_and_number, register_address_and_value,
}

-- the data field of a request; `spare` is what lies behind it in the receive buffer
abbrev pub request : ℕ → ℕ → List ℕ → List ℕ → View
request register number rest spare = record {
  device_id = 0;
  function = 0;
  body = record { vals = register_and_number register number rest; spare = spare };
}

module _ (register number : ℕ) (rest spare : List ℕ) (hr : IsU16 register) (hn : IsU16 number) where
  pub address_and_number :
      register_address_and_number (request register number rest spare).body
      ≡ done (register, number, register + number)
  unfolding register_address_and_number
  address_and_number = ground arith

  pub address_and_value :
      register_address_and_value (request register number rest spare).body ≡ done (register, number)
  unfolding register_address_and_value
  address_and_value = ground arith

module _ (register number b : ℕ) (rest spare : List ℕ) where
  -- the value bytes of a write of several coils or registers
  pub value_bytes : from (request register number (b ∷ rest) spare).body 5 ≡ done rest
  value_bytes = ground arith

module _ (register number : ℕ) (rest spare : List ℕ) where
  -- the echo that a write answers
  pub echo :
      upto (request register number rest spare).body 4
      ≡ done (register_and_number register number [])
  echo = ground (arith, length-append rest spare)
