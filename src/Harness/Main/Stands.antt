-- ===== src/Harness/Main/Stands.antt =====
-- src/main.rs: the synthetic feed beside the agents. The seeded entities stay in the store, and a
-- trigger that the feed sets is set.
use atlas_hpc.Base.{
  ℕ, zero, suc, ◌%◌, ◌<◌, ◌≡◌, refl, sym, ◌∙◌, subst, true, false, some, [], ◌∷◌, ◌==◌, nat_eq,
  nat_beq_iff, ltb, if◌then◌else◌, In, arith, Bool-cases, Option-cases, inl, inr,
}
use atlas_hpc.Base.Float.{Float}
use atlas_hpc.HotTier.Channel.{Channel}
use atlas_hpc.HotTier.DashMap.{DashMap, IsDashMap}
use atlas_hpc.HotTier.Sensing.{SensingConfig, Instants, Sensor, check_spike}
use atlas_hpc.HotTier.Sensing.Threads.{
  Phase, waiting, collecting, checking, notifying, weighing, System, Event, agent, write, receive,
  advance, step, state_at,
}
use atlas_hpc.HotTier.Sensing.Threads.Triggers.{KeepsTrigger, IsTriggered}
use atlas_hpc.HotTier.Store
use atlas_hpc.HotTier.Store.Laws.{Call, insert_call, weight_call, trigger_call, price_call, perform}
use atlas_hpc.Types.Entity.{WeightedEntity}
use atlas_hpc.Types.Signal.{SignalEvent}
use atlas_hpc.Harness.{entity_count, Round}
use atlas_hpc.Harness.Fed.{tick_calls}

module _ {F D : Type 0} ⦃f : Float F⦄ ⦃d : Float D⦄ where
  -- Every write is a call of some round of the synthetic feed.
  abbrev pub IsSynthetic : (ℕ → Event F D) → Type 0
  IsSynthetic events =
      (n : ℕ) (c : Call F D)
      → events n ≡ write c
      → (now : Round) × (rng_state : ℕ) × In c (tick_calls now rng_state)

  -- A call of the feed changes an entity in place, and sets a trigger if it is one of triggers.
  pub data Fed (c : Call F D) : Type 0 where
    priced : (at id : ℕ) (p : D) → c ≡ price_call at id p → Fed c
    weighed : (at id : ℕ) (s a b : F) → c ≡ weight_call at id s a b → Fed c
    flagged : (at id : ℕ) → id < entity_count → c ≡ trigger_call at id true → Fed c

  pub tick_calls-Fed :
      (now : Round) (rng_state : ℕ) (c : Call F D) → In c (tick_calls now rng_state) → Fed c
  tick_calls-Fed now rng_state c (inl e) = priced _ _ _ e
  tick_calls-Fed now rng_state c (inr (inl e)) = weighed _ _ _ _ _ e
  tick_calls-Fed now rng_state c (inr (inr i)) = elim (Bool-cases (ltb (rng_state % 100) 1)) [
    | inl draws ↦
        let set : Call F D = trigger_call now.flagged_at (rng_state % entity_count) true in
        let j = subst (λ b. In c (if b then set ∷ [] else [])) draws i in
        elim j [
          | inl e ↦ flagged now.flagged_at (rng_state % entity_count) (omega arith) e
          | inr none_left ↦ absurd none_left
        ]
    | inr other ↦
        let set : Call F D = trigger_call now.flagged_at (rng_state % entity_count) true in
        absurd (subst (λ b. In c (if b then set ∷ [] else [])) other i)
  ]

  Fed-KeepsTrigger : (j : ℕ) (c : Call F D) → Fed c → KeepsTrigger j (write c)
  Fed-KeepsTrigger j c (priced at id p e) = subst (λ x. KeepsTrigger j (write x)) (sym e) tt
  Fed-KeepsTrigger j c (weighed at id x a b e) = subst (λ y. KeepsTrigger j (write y)) (sym e) tt
  Fed-KeepsTrigger j c (flagged at id below e) =
      subst (λ x. KeepsTrigger j (write x)) (sym e) (λ same. refl)

  pub flagged-below : (at id : ℕ) → Fed (trigger_call at id true) → id < entity_count
  flagged-below at id (priced at' id' p e) = cc
  flagged-below at id (weighed at' id' x a b e) = cc
  flagged-below at id (flagged at' id' below e) = let same : id ≡ id' = cc in omega arith

  pub event-KeepsTrigger :
      (j : ℕ) (ev : Event F D) → ((c : Call F D) → ev ≡ write c → Fed c) → KeepsTrigger j ev
  event-KeepsTrigger j (agent at) fed = tt
  event-KeepsTrigger j (write (insert_call e)) fed =
      Fed-KeepsTrigger j (insert_call e) (fed (insert_call e) refl)
  event-KeepsTrigger j (write (weight_call at id x a b)) fed = tt
  event-KeepsTrigger j (write (trigger_call at id v)) fed =
      Fed-KeepsTrigger j (trigger_call at id v) (fed (trigger_call at id v) refl)
  event-KeepsTrigger j (write (price_call at id p)) fed = tt
  event-KeepsTrigger j receive fed = tt

module _ {F D M C : Type 0} ⦃f : Float F⦄ ⦃d : Float D⦄ (t : DashMap (WeightedEntity F D) M)
    (ch : Channel (SignalEvent F) C) (config : SensingConfig F) (laws : IsDashMap t) where
  -- Entity `j` stands in the store, under its own id.
  abbrev pub Stands : ℕ → M → Type 0
  Stands j m = (e : WeightedEntity F D) × (t.get j m ≡ some e) × (e.entity_id ≡ j)

  alter-Stands :
      (j k : ℕ) (g : WeightedEntity F D → WeightedEntity F D) (m : M)
      → ((e : WeightedEntity F D) → (g e).entity_id ≡ e.entity_id)
      → Stands j m
      → Stands j (t.alter k g m)
  alter-Stands j k g m keeps (e, found, same) = elim (Bool-cases (k == j)) [
    | inl here ↦ (g e, ground (arith, laws.get-alter k g m j), keeps e ∙ same)
    | inr other ↦ (e, ground (arith, laws.get-alter k g m j), same)
  ]

  perform-Stands : (j : ℕ) (c : Call F D) (m : M) → Fed c → Stands j m → Stands j (perform t c m)
  unfolding perform Store.update_weight Store.set_causal_trigger Store.tick_price Store.reweigh
  perform-Stands j c m (priced at id p e) h =
      subst (λ x. Stands j (perform t x m)) (sym e) (alter-Stands j id _ m (λ x. refl) h)
  perform-Stands j c m (flagged at id below e) h =
      subst (λ x. Stands j (perform t x m)) (sym e) (alter-Stands j id _ m (λ x. refl) h)
  perform-Stands j c m (weighed at id s a b e) h =
      let kept = alter-Stands j id (Store.reweigh at s a b) m (λ x. refl) h in
      let weighs : Stands j (perform t (weight_call at id s a b) m) =
        elim (Option-cases (t.get id m)) [
          | inl gone ↦
              let same : perform t (weight_call at id s a b) m ≡ m = ground arith in
              subst (Stands j) (sym same) h
          | inr (x, there) ↦
              let same : perform t (weight_call at id s a b) m
                  ≡ t.alter id (Store.reweigh at s a b) m =
                ground arith in
              subst (Stands j) (sym same) kept
        ] in
      subst (λ x. Stands j (perform t x m)) (sym e) weighs

  advance-Stands :
      (j : ℕ) (at : Instants) (p : Phase F D) (s : Sensor F M C)
      → Stands j s.store
      → Stands j (advance t ch config at p s).sensor.store
  unfolding advance check_spike Store.set_causal_trigger
  advance-Stands j at waiting s h = h
  advance-Stands j at (collecting [] v) s h = h
  advance-Stands j at (collecting (k ∷ ks) v) s h = h
  advance-Stands j at (checking []) s h = h
  advance-Stands j at (checking (x ∷ es)) s h = elim (Bool-cases x.causal_trigger_bit) [
    | inl set ↦
        let kept =
          alter-Stands j x.entity_id
            (λ e. record e { causal_trigger_bit = false; last_updated_ns = at.reset_at }) s.store
            (λ e. refl) h in
        rw set kept
    | inr unset ↦ rw unset h
  ]
  advance-Stands j at (notifying e es) s h = h
  advance-Stands j at (weighing e es) s h =
      let store : (check_spike t ch.sender config at e s).store ≡ s.store = ground arith in
      subst (Stands j) (sym store) h

  step-Stands :
      (j : ℕ) (ev : Event F D) (s : System F D M C)
      → ((c : Call F D) → ev ≡ write c → Fed c)
      → Stands j s.sensor.store
      → Stands j (step t ch config ev s).sensor.store
  unfolding step
  step-Stands j (agent at) s fed h = advance-Stands j at s.phase s.sensor h
  step-Stands j (write c) s fed h = perform-Stands j c s.sensor.store (fed c refl) h
  step-Stands j receive s fed h = h

  pub state-Stands :
      (events : ℕ → Event F D)
      → ((n : ℕ) (c : Call F D) → events n ≡ write c → Fed c)
      → (s : System F D M C) (j n : ℕ) → Stands j s.sensor.store
      → Stands j (state_at t ch config events s n).sensor.store
  unfolding state_at
  state-Stands events fed s j zero h = h
  state-Stands events fed s j (suc n) h =
      step-Stands j (events n) (state_at t ch config events s n) (fed n)
        (state-Stands events fed s j n h)

  -- A trigger that the feed sets is set.
  pub flagged-IsTriggered :
      (events : ℕ → Event F D) (s : System F D M C) (j n at : ℕ)
      → events n ≡ write (trigger_call at j true)
      → Stands j (state_at t ch config events s n).sensor.store
      → IsTriggered t ch config j (state_at t ch config events s (suc n)).sensor.store
  unfolding state_at step perform Store.set_causal_trigger
  flagged-IsTriggered events s j n at mine (e, found, same) =
      let g =
        λ (x : WeightedEntity F D). record x { causal_trigger_bit = true; last_updated_ns = at } in
      let m = (state_at t ch config events s n).sensor.store in
      let set : IsTriggered t ch config j (t.alter j g m) =
        (g e, ground (arith, laws.get-alter j g m j, nat_beq_iff j j), same, refl) in
      subst
        (λ ev.
          IsTriggered t ch config j
            (step t ch config ev (state_at t ch config events s n)).sensor.store)
        (sym mine) set
