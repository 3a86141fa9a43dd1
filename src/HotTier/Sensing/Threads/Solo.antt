-- ===== src/HotTier/Sensing/Threads/Solo.antt =====
-- With no other thread in between, the accesses of `SensingAgent` (crates/hot-tier/src/lib.rs) are
-- the sweeps of its loop.
use mathlib.Core.List.{append_assoc, append-nil}
use atlas_hpc.Base.{
  ℕ, suc, ◌≡◌, refl, sym, ◌∙◌, ap, subst, take, true, false, none, some, List, [], ◌∷◌, ◌++◌, map,
  nat_eq, nat_beq_iff, arith, if◌then◌else◌, Bool-cases, inl, inr,
}
use atlas_hpc.Base.Dict
use atlas_hpc.Base.Dict.{Dict, Distinct}
use atlas_hpc.Base.Float.{Float}
use atlas_hpc.HotTier.Channel.{Channel, IsBounded}
use atlas_hpc.HotTier.DashMap.{DashMap, IsDashMap}
use atlas_hpc.Types.Entity.{WeightedEntity}
use atlas_hpc.Types.Signal.{SignalEvent}
use atlas_hpc.HotTier.Sensing.{
  SensingConfig, Instants, Sensor, check_trigger, sense, sense_all, snapshots, sweep,
}
use atlas_hpc.HotTier.Sensing.Detect.{detected, is_empty}
use atlas_hpc.HotTier.Sensing.Resets.{Keyed}
use atlas_hpc.HotTier.Sensing.Sweep.{sweep_sends, sweep_resets}
use atlas_hpc.HotTier.Sensing.Threads.{
  waiting, collecting, checking, to_list, System, Event, agent, advance, step, run_events,
}

-- The accesses for one entity.
abbrev pub entity_events : {F D : Type 0} → Instants → WeightedEntity F D → List (Event F D)
entity_events at e =
    if e.causal_trigger_bit then agent at ∷ agent at ∷ agent at ∷ [] else agent at ∷ agent at ∷ []

-- The accesses of the `for` loop over these entities, the k-th with the clock readings `at k`.
abbrev pub loop_events :
    {F D : Type 0} → (ℕ → Instants) → ℕ → List (WeightedEntity F D) → List (Event F D)
loop_events at k [] = []
loop_events at k (e ∷ es) = entity_events (at k) e ++ loop_events at (suc k) es

-- The accesses of the visit of these entries by `iter`: one for each, and the end.
abbrev pub visit_events :
    {F D : Type 0} → Instants → List (ℕ × WeightedEntity F D) → List (Event F D)
visit_events at [] = agent at ∷ []
visit_events at (x ∷ xs) = agent at ∷ visit_events at xs

-- The accesses of a whole sweep over a store with these entries.
abbrev pub sweep_events :
    {F D : Type 0} → (ℕ → Instants) → List (ℕ × WeightedEntity F D) → List (Event F D)
sweep_events at xs =
    agent (at 0) ∷ visit_events (at 0) xs
    ++ (loop_events at 0 (map (λ p. p.1) xs) ++ agent (at 0) ∷ [])

module _ {F D M C : Type 0} ⦃f : Float F⦄ (t : DashMap (WeightedEntity F D) M)
    (ch : Channel (SignalEvent F) C) (config : SensingConfig F) where
  run_append :
      (xs ys : List (Event F D)) (s : System F D M C)
      → run_events t ch config (xs ++ ys) s
        ≡ run_events t ch config ys (run_events t ch config xs s)
  unfolding run_events
  run_append [] ys s = refl
  run_append (x ∷ xs) ys s = run_append xs ys (step t ch config x s)

  run_entity :
      (at : Instants) (e : WeightedEntity F D) (es : List (WeightedEntity F D)) (s : Sensor F M C)
      → run_events t ch config
          (entity_events at e)
          (record { sensor = s; phase = checking (e ∷ es) })
        ≡ record { sensor = sense t ch.sender config at e s; phase = checking es }
  unfolding run_events step advance sense check_trigger
  run_entity at e es s = elim (Bool-cases e.causal_trigger_bit) [
    | inl set ↦ rw set refl
    | inr unset ↦ rw unset refl
  ]

  run_loop :
      (at : ℕ → Instants) (k : ℕ) (es : List (WeightedEntity F D)) (s : Sensor F M C)
      → run_events t ch config (loop_events at k es) (record { sensor = s; phase = checking es })
        ≡ record { sensor = sense_all t ch.sender config at k es s; phase = checking [] }
  unfolding run_events sense_all
  run_loop at k [] s = refl
  run_loop at k (e ∷ es) s =
      let later = loop_events at (suc k) es in
      run_append (entity_events (at k) e) later (record { sensor = s; phase = checking (e ∷ es) })
      ∙ ap (run_events t ch config later) (run_entity (at k) e es s)
      ∙ run_loop at (suc k) es (sense t ch.sender config (at k) e s)

  -- `iter` hands out every entry, when nothing is written meanwhile.
  run_visit :
      (at : Instants) (s : Sensor F M C) (xs : Dict ℕ (WeightedEntity F D))
      (v : List (WeightedEntity F D))
      → Distinct xs
      → ((j : ℕ) (e : WeightedEntity F D) → Dict.lookup j xs ≡ some e → t.get j s.store ≡ some e)
      → run_events t ch config
          (visit_events at xs)
          (record { sensor = s; phase = collecting (map (λ p. p.0) xs) v })
        ≡ record { sensor = s; phase = checking (v ++ map (λ p. p.1) xs) }
  unfolding run_events step advance Dict.lookup
  run_visit at s [] v d h = ap (λ w. record { sensor = s; phase = checking w }) (sym (append-nil v))
  run_visit at s ((k, x) ∷ xs) v d h =
      let here : t.get k s.store ≡ some x = h k x (ground (arith, nat_beq_iff k k)) in
      let later =
        run_visit at s xs (v ++ x ∷ []) d.1 (λ j e p. h j e (ground (arith, nat_beq_iff j k))) in
      ap
        (λ o.
          run_events t ch config (visit_events at xs)
            (record { sensor = s; phase = collecting (map (λ p. p.0) xs) (v ++ to_list o) }))
        here
      ∙ later
      ∙ ap (λ w. record { sensor = s; phase = checking w })
          (append_assoc v (x ∷ []) (map (λ p. p.1) xs))

  -- If no other thread goes in between, the accesses of the agent from the head of its loop leave
  -- what one sweep leaves, and the agent at the head of its loop again, when the store keeps the
  -- laws of a map.
  alone-sweep :
      IsDashMap t
      → (at : ℕ → Instants) (s : Sensor F M C)
      → run_events t ch config
          (sweep_events at (t.entries s.store))
          (record { sensor = s; phase = waiting })
        ≡ record { sensor = sweep t ch.sender config at s; phase = waiting }
  unfolding run_events step advance sweep
  alone-sweep laws at s =
      let xs = t.entries s.store in
      let es = snapshots t ch.sender config s.store in
      let begun = record s { idle = true } in
      let last = agent (at 0) ∷ [] in
      let rest = loop_events at 0 es ++ last in
      run_append (visit_events (at 0) xs) rest
        (record { sensor = begun; phase = collecting (map (λ p. p.0) xs) [] })
      ∙ ap (run_events t ch config rest) (
          run_visit (at 0) begun xs [] (laws.entries-Distinct s.store)
            (λ j e p. sym (laws.lookup-entries s.store j) ∙ p))
      ∙ run_append (loop_events at 0 es) last (record { sensor = begun; phase = checking es })
      ∙ ap (run_events t ch config last) (run_loop at 0 es begun)

  -- If no other thread goes in between, every entity of the store stands under its own id, and the
  -- store keeps the laws of a map, then the accesses of the agent from the head of its loop bring it
  -- back there. They offer to the channel, in order, the trigger and the spike of each entity, with
  -- the weights of the last sweep: the free slots take the first of these, and the rest are lost.
  -- `idle` is left set exactly if nothing was detected. No trigger is set then, and each entity
  -- differs from before in its trigger and its time at most.
  pub alone_sends :
      IsDashMap t
      → (b : IsBounded ch.sender) (at : ℕ → Instants) (s : Sensor F M C) → Keyed t s.store
      → let after =
          run_events t ch config
            (sweep_events at (t.entries s.store))
            (record { sensor = s; phase = waiting }) in
        let signals = detected config at 0 s.prev_weights (map (λ p. p.1) (t.entries s.store)) in
        (after.phase ≡ waiting)
        × (b.accepted after.sensor.tx ≡ b.accepted s.tx ++ take (b.room s.tx) signals)
        × (after.sensor.idle ≡ is_empty signals)
        × ((j : ℕ)
            → ((t.get j s.store ≡ none) → t.get j after.sensor.store ≡ none)
              × ((e : WeightedEntity F D)
                  → t.get j s.store ≡ some e
                  → (ns : ℕ) × (t.get j after.sensor.store
                      ≡ some (record e { causal_trigger_bit = false; last_updated_ns = ns }))))
  alone_sends laws b at s h =
      let signals = detected config at 0 s.prev_weights (map (λ p. p.1) (t.entries s.store)) in
      subst
        (λ (x : System F D M C).
          (x.phase ≡ waiting)
          × (b.accepted x.sensor.tx ≡ b.accepted s.tx ++ take (b.room s.tx) signals)
          × (x.sensor.idle ≡ is_empty signals)
          × ((j : ℕ)
              → ((t.get j s.store ≡ none) → t.get j x.sensor.store ≡ none)
                × ((e : WeightedEntity F D)
                    → t.get j s.store ≡ some e
                    → (ns : ℕ) × (t.get j x.sensor.store
                        ≡ some (record e { causal_trigger_bit = false; last_updated_ns = ns })))))
        (sym (alone-sweep laws at s))
        (
          refl,
          (sweep_sends t ch.sender config laws b at s h).0,
          (sweep_sends t ch.sender config laws b at s h).1,
          sweep_resets t ch.sender config laws at s h,
        )
