-- ===== src/Protocol/Xn3477/Endpoint/Controls.antt =====
-- What the writes of an EMS do: the registers keep the values, and the controls reach the BMS.
use virtual_bess.Prelude.{
  ℕ, suc, ◌+◌, ◌-◌, ◌≤◌, ◌<◌, List, [], ◌∷◌, ◌≡◌, ◌⊎◌, refl, ap, ◌∙◌, arith, IsU16, some, uint16,
  length,
}
use virtual_bess.Prelude.Go.{Run, done}
use virtual_bess.Prelude.Array.{overlay, copied}
use virtual_bess.Mbserver.Exceptions.{Exception, success, is_success}
use virtual_bess.Mbserver.Registers.{update_uint16_data}
use virtual_bess.Simulator.Bank.{SlaveBank}
use virtual_bess.Protocol.Xn3477.Endpoint.{
  Endpoint, set_bank, forward, forward_bau_control, forward_write, write, write_all,
}

module _ {W : Type 0} (write_holding_external : W → ℕ → ℕ → ℕ → W) where
  abbrev stored : SlaveBank → ℕ → ℕ → SlaveBank
  stored bank addr value = record bank {
    holding = record bank.holding { at = overlay bank.holding.at addr 1 (value ∷ []) };
  }

  update_one :
      (bank : SlaveBank) (addr value : ℕ)
      → bank.holding.size ≡ 65536
      → IsU16 addr
      → update_uint16_data bank.holding addr (value ∷ [])
        ≡ done ((stored bank addr value).holding, 1)
  unfolding update_uint16_data
  update_one bank addr value size h =
      let one : copied bank.holding addr (value ∷ []) ≡ 1 = omega arith in rw one (ground arith)

  forward_write_banks :
      (ep : Endpoint W) (slave_id addr value : ℕ)
      → (forward_write write_holding_external ep slave_id addr value).banks ≡ ep.banks
  unfolding forward_write forward_bau_control
  forward_write_banks ep slave_id addr value = ground arith

  write_run :
      (ep : Endpoint W) (bank : SlaveBank) (slave_id addr value : ℕ)
      → ep.banks slave_id ≡ some bank
      → bank.holding.size ≡ 65536
      → IsU16 addr
      → write write_holding_external ep slave_id addr value
        ≡ done (
          forward_write write_holding_external
              (set_bank write_holding_external slave_id (stored bank addr value) ep)
              slave_id
              addr
              value,
          success,
        )
  unfolding write
  write_run ep bank slave_id addr value found size h =
      rw (found, update_one bank addr value size h) refl

  -- A control of the BAU and the register of the BMS that it sets: the reset of a fault, and the
  -- closing and the opening of the high voltage.
  abbrev pub IsControl : ℕ → ℕ → ℕ → Type 0
  IsControl addr value register =
      ((addr ≡ 0x3047) × (value ≡ 1) × (register ≡ 40000))
      ⊎ (((addr ≡ 0x3001) × (value ≡ 1) × (register ≡ 40001))
          ⊎ ((addr ≡ 0x3001) × (value ≡ 2) × (register ≡ 40002)))

  control_forwarded :
      (ep : Endpoint W) (addr value register : ℕ)
      → IsControl addr value register
      → forward_bau_control write_holding_external ep addr value
        ≡ forward write_holding_external ep register
  unfolding forward_bau_control
  control_forwarded ep addr value register c = ground arith

  -- A control written to the BAU succeeds, and sets the register of the BMS that it stands for to 1.
  -- The endpoint has a bank of 65536 registers for the BAU.
  pub write_control :
      (ep : Endpoint W) (bank : SlaveBank) (addr value register : ℕ)
      → ep.banks ep.bau_slave_id ≡ some bank
      → bank.holding.size ≡ 65536
      → IsControl addr value register
      → (ep' : Endpoint W) × (write write_holding_external ep ep.bau_slave_id addr value
          ≡ done (ep', success))
        × (ep'.sim ≡ write_holding_external ep.sim ep.bms_slave_id register 1)
  unfolding forward_write
  write_control ep bank addr value register found size c =
      let ep1 = set_bank write_holding_external ep.bau_slave_id (stored bank addr value) ep in
      let sent = control_forwarded ep1 addr value register c in
      (
        forward_bau_control write_holding_external ep1 addr value,
        write_run ep bank ep.bau_slave_id addr value found size (omega (arith, c)) ∙ ground arith,
        ap (λ (e : Endpoint W). e.sim) sent,
      )

  -- What a run of writes leaves in the bank of the slave.
  abbrev Stores : Run (Endpoint W × Exception) → ℕ → SlaveBank → ℕ → List ℕ → Type 0
  Stores run slave_id bank start values =
      (ep' : Endpoint W) × (bank' : SlaveBank) × (run ≡ done (ep', success))
      × (ep'.banks slave_id ≡ some bank')
      × (bank'.holding.size ≡ 65536)
      × ((j : ℕ) → bank'.holding.at j ≡ overlay bank.holding.at start (length values) values j)

  one_more :
      (f g h : ℕ → ℕ) (start v : ℕ) (vs : List ℕ)
      → ((j : ℕ) → g j ≡ overlay f start 1 (v ∷ []) j)
      → ((j : ℕ) → h j ≡ overlay g (start + 1) (length vs) vs j)
      → (j : ℕ) → h j ≡ overlay f start (length (v ∷ vs)) (v ∷ vs) j
  one_more f g h start v vs p q j =
      let same : j ≡ start → j - start ≡ 0 = λ e. omega arith in
      let later : start < j → j - start ≡ suc (j - (start + 1)) = λ e. omega arith in
      ground (arith, p j, q j, same, later)

  write_all_step :
      (ep ep1 : Endpoint W) (slave_id addr i v : ℕ) (vs : List ℕ)
      → addr + i < 65536
      → write write_holding_external ep slave_id (addr + i) v ≡ done (ep1, success)
      → write_all write_holding_external (v ∷ vs) ep slave_id addr i
        ≡ write_all write_holding_external vs ep1 slave_id addr (i + 1)
  unfolding write_all is_success
  write_all_step ep ep1 slave_id addr i v vs h run =
      let word : uint16 (addr + i) ≡ addr + i = omega arith in rw (word, run) refl

  pub write_all-Stores :
      (values : List ℕ) (ep : Endpoint W) (bank : SlaveBank) (slave_id addr i : ℕ)
      → ep.banks slave_id ≡ some bank
      → bank.holding.size ≡ 65536
      → addr + i + length values ≤ 65536
      → Stores
          (write_all write_holding_external values ep slave_id addr i)
          slave_id
          bank
          (addr + i)
          values
  write_all-Stores [] ep bank slave_id addr i found size fits =
      (ep, bank, unfold write_all in refl, found, size, λ j. ground arith)
  write_all-Stores (v ∷ vs) ep bank slave_id addr i found size fits =
      let next : addr + (i + 1) ≡ addr + i + 1 = omega arith in
      let bank1 = stored bank (addr + i) v in
      let ep1 =
        forward_write write_holding_external (set_bank write_holding_external slave_id bank1 ep)
          slave_id (addr + i) v in
      let found1 : ep1.banks slave_id ≡ some bank1 =
        rw
          (forward_write_banks (set_bank write_holding_external slave_id bank1 ep) slave_id
            (addr + i) v)
          (ground arith) in
      let (ep2, bank2, run, found2, size2, values2) =
        write_all-Stores vs ep1 bank1 slave_id addr (i + 1) found1 size (omega arith) in
      (
        ep2,
        bank2,
        write_all_step ep ep1 slave_id addr i v vs (omega arith)
              (write_run ep bank slave_id (addr + i) v found size (omega arith))
            ∙ run,
        found2,
        size2,
        one_more bank.holding.at bank1.holding.at bank2.holding.at (addr + i) v vs (λ j. refl)
            (rw next at values2),
      )
