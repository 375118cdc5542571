-- ===== src/Simulator/Site/Indices.antt =====
-- The indices that `NewSimulator` resolves for the meters are in range.
use virtual_bess.Prelude.{
  ℕ, suc, ◌+◌, ◌<◌, ◌≤◌, ◌≡◌, refl, subst, arith, inl, inr, Bool-cases, List, [], ◌∷◌, map, Bool,
  true, false, none, some, All, length, length-map, ◌==◌, if◌then◌else◌,
}
use virtual_bess.Prelude.Text.{Text, same}
use virtual_bess.Prelude.Distinct.{elem}
use virtual_bess.Simulator.Float.{Float}
use virtual_bess.Simulator.Config.{Config, BatteryUnitConfig, PvUnitConfig, MeterConfig, LoadCfg}
use virtual_bess.Simulator.Config.Validate.{pcs_ids_of, pv_ids_of, load_names_of}
use virtual_bess.Simulator.Config.Validate.References.{IsKnown, IsNamed, Resolves}
use virtual_bess.Simulator.Site.{MeterAgg}
use virtual_bess.Simulator.Site.Start.{
  last_index, or_zero, idx_by_id, idx_by_name, indices_from, new_agg,
}

-- All indices are below a length.
abbrev pub AreBelow : ℕ → List ℕ → Type 0
AreBelow n = All (λ i. i < n)

module _ {A : Type 0} (equal : A → A → Bool) where
  -- an index that was found stays one in range
  last_index_kept :
      (key : A) (i : ℕ) (ks : List A) (j : ℕ)
      → j < i
      → or_zero (last_index equal key i ks (some j)) < i + length ks
  last_index_kept key i [] j h = omega arith
  last_index_kept key i (k ∷ ks) j h = elim (Bool-cases (equal key k)) [
    | inl e ↦ rw e (omega (arith, last_index_kept key (suc i) ks i (omega arith)))
    | inr e ↦ rw e (omega (arith, last_index_kept key (suc i) ks j (omega arith)))
  ]

  -- A key of the list has an index in range.
  last_index-lt :
      (key : A) (i : ℕ) (ks : List A)
      → elem equal key ks ≡ true
      → or_zero (last_index equal key i ks none) < i + length ks
  last_index-lt key i [] h = cc
  last_index-lt key i (k ∷ ks) h = elim (Bool-cases (equal key k)) [
    | inl e ↦ rw e (omega (arith, last_index_kept key (suc i) ks i (omega arith)))
    | inr e ↦ rw e (omega (arith, last_index-lt key (suc i) ks (rw e at h)))
  ]

indices_from-lt :
    {A : Type 0} (n i : ℕ) (xs : List A) → i + length xs ≤ n → AreBelow n (indices_from i xs)
indices_from-lt n i [] h = tt
indices_from-lt n i (x ∷ xs) h = (omega arith, indices_from-lt n (suc i) xs (omega arith))

idx_by_id-lt :
    (ids known : List ℕ)
    → All (IsKnown known) ids
    → AreBelow (length known) (map (idx_by_id known) ids)
idx_by_id-lt [] known h = tt
idx_by_id-lt (id ∷ ids) known (p, h) =
    (omega (arith, last_index-lt ◌==◌ id 0 known p), idx_by_id-lt ids known h)

idx_by_name-lt :
    (names known : List Text)
    → All (IsNamed known) names
    → AreBelow (length known) (map (idx_by_name known) names)
idx_by_name-lt [] known h = tt
idx_by_name-lt (n ∷ ns) known (p, h) =
    (omega (arith, last_index-lt same n 0 known p), idx_by_name-lt ns known h)

-- the indices of the main meter or of a sub-meter
choice :
    (n : ℕ) (main : Bool) (all some_of : List ℕ)
    → AreBelow n all
    → (main ≡ false → AreBelow n some_of)
    → AreBelow n (if main then all else some_of)
choice n true all some_of h k = h
choice n false all some_of h k = k refl

module _ {F : Type 0} where
  -- The indices of a meter are in range of that many batteries, PV inverters and loads.
  pub record InRange (batteries : ℕ) (pvs : ℕ) (loads : ℕ) (agg : MeterAgg F) : Type 0 where
    pub pcs_below : AreBelow batteries agg.pcs_idx
    pub pvs_below : AreBelow pvs agg.pv_idx
    pub loads_below : AreBelow loads agg.load_idx

module _ {F : Type 0} ⦃fl : Float F⦄ where
  -- The references of a meter that resolve give indices in range.
  pub new_agg-InRange :
      (cfg : Config F) (m : MeterConfig F)
      → Resolves (pcs_ids_of cfg.battery_units) (pv_ids_of cfg.pv_units) (load_names_of cfg.loads) m
      → InRange (length cfg.battery_units) (length cfg.pv_units) (length cfg.loads) (new_agg cfg m)
  unfolding new_agg
  new_agg-InRange cfg m r =
      let pcs = pcs_ids_of cfg.battery_units in
      let pvs = pv_ids_of cfg.pv_units in
      let names = load_names_of cfg.loads in
      let e1 = length-map (λ (bu : BatteryUnitConfig F). bu.pcs_slave_id) cfg.battery_units in
      let e2 = length-map (λ (pv : PvUnitConfig F). pv.slave_id) cfg.pv_units in
      let e3 = length-map (λ (ld : LoadCfg F). ld.name) cfg.loads in
      record {
        pcs_below =
            choice (length cfg.battery_units) m.is_main (indices_from 0 cfg.battery_units)
              (map (idx_by_id pcs) m.pcs_slave_ids)
              (indices_from-lt (length cfg.battery_units) 0 cfg.battery_units (omega arith))
              (λ sub.
                subst (λ n. AreBelow n (map (idx_by_id pcs) m.pcs_slave_ids)) e1
                  (idx_by_id-lt m.pcs_slave_ids pcs (r.pcs_known sub)));
        pvs_below =
            choice (length cfg.pv_units) m.is_main (indices_from 0 cfg.pv_units)
              (map (idx_by_id pvs) m.pv_slave_ids)
              (indices_from-lt (length cfg.pv_units) 0 cfg.pv_units (omega arith))
              (λ sub.
                subst (λ n. AreBelow n (map (idx_by_id pvs) m.pv_slave_ids)) e2
                  (idx_by_id-lt m.pv_slave_ids pvs (r.pvs_known sub)));
        loads_below =
            choice (length cfg.loads) m.is_main (indices_from 0 cfg.loads)
              (map (idx_by_name names) m.load_names)
              (indices_from-lt (length cfg.loads) 0 cfg.loads (omega arith))
              (λ sub.
                subst (λ n. AreBelow n (map (idx_by_name names) m.load_names)) e3
                  (idx_by_name-lt m.load_names names (r.loads_known sub)));
      }
