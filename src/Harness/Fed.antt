-- ===== src/Harness/Fed.antt =====
-- src/main.rs: the synthetic feed as calls of the store, and what it does to triggers.
use atlas_hpc.Base.{
  ℕ, zero, suc, All, ◌%◌, ◌≡◌, refl, sym, ◌∙◌, ap, subst, true, false, List, [], ◌∷◌, nat_eq,
  nat_beq_iff, ltb, if◌then◌else◌, arith, Option-cases, inl, inr,
}
use atlas_hpc.Base.Float.{Float}
use atlas_hpc.HotTier.Channel.{Channel}
use atlas_hpc.HotTier.DashMap.{DashMap, IsDashMap}
use atlas_hpc.HotTier.Sensing.{SensingConfig}
use atlas_hpc.HotTier.Sensing.Threads.{write}
use atlas_hpc.HotTier.Sensing.Threads.Offers.{write_trigger}
use atlas_hpc.HotTier.Sensing.Threads.Triggers.{KeepsTrigger, IsTriggered}
use atlas_hpc.HotTier.Feed.Software.{xorshift}
use atlas_hpc.HotTier.Store
use atlas_hpc.HotTier.Store.Laws.{
  Call, weight_call, trigger_call, price_call, perform, run, view, IsKeyed, run-IsKeyed,
  run-contains,
}
use atlas_hpc.Types.Entity.{WeightedEntity}
use atlas_hpc.Types.Signal.{SignalEvent}
use atlas_hpc.Harness.{entity_count, Round, synthetic_tick, synthetic_feed}

module _ {F D : Type 0} ⦃f : Float F⦄ ⦃d : Float D⦄ where
  -- The calls of one round.
  abbrev pub tick_calls : Round → ℕ → List (Call F D)
  tick_calls now rng_state =
      let id = rng_state % entity_count in
      price_call now.ticked_at id (d.lit 150 0)
      ∷ weight_call now.weighed_at id (f.lit 200 0) (f.lit 9 1) (f.lit 1 1)
      ∷ (if ltb (rng_state % 100) 1 then trigger_call now.flagged_at id true ∷ [] else [])

module _ {F D M C : Type 0} ⦃f : Float F⦄ ⦃d : Float D⦄ (t : DashMap (WeightedEntity F D) M)
    (ch : Channel (SignalEvent F) C) (config : SensingConfig F) (laws : IsDashMap t) where
  tick-run :
      (now : Round) (rng_state : ℕ) (m : M)
      → synthetic_tick t now rng_state m ≡ run t (tick_calls now rng_state) m
  unfolding synthetic_tick run perform
  tick-run now rng_state m = ground arith

  run-IsTriggered :
      (j : ℕ) (cs : List (Call F D)) (m : M)
      → All (λ c. KeepsTrigger j (write c)) cs
      → IsTriggered t ch config j m
      → IsTriggered t ch config j (run t cs m)
  unfolding run
  run-IsTriggered j [] m keep h = h
  run-IsTriggered j (c ∷ cs) m (keeps, keep) h =
      run-IsTriggered j cs (perform t c m) keep (write_trigger t ch config laws j c m keeps h)

  -- The feed takes no trigger back.
  tick-IsTriggered :
      (now : Round) (rng_state j : ℕ) (m : M)
      → IsTriggered t ch config j m
      → IsTriggered t ch config j (synthetic_tick t now rng_state m)
  tick-IsTriggered now rng_state j m h =
      let id = rng_state % entity_count in
      let keep : All (λ (c : Call F D). KeepsTrigger j (write c)) (tick_calls now rng_state) =
        elim (ltb (rng_state % 100) 1)
          as (λ b.
            All (λ (c : Call F D). KeepsTrigger j (write c))
              (price_call now.ticked_at id (d.lit 150 0)
                ∷ weight_call now.weighed_at id (f.lit 200 0) (f.lit 9 1) (f.lit 1 1)
                ∷ (if b then trigger_call now.flagged_at id true ∷ [] else []))) [
                  | true ↦ (tt, (tt, (λ same. refl, tt)))
                  | false ↦ (tt, (tt, tt))
                ] in
      subst (IsTriggered t ch config j) (sym (tick-run now rng_state m))
        (run-IsTriggered j (tick_calls now rng_state) m keep h)

  feed-IsTriggered :
      (now : ℕ → Round) (n rng_state j : ℕ) (m : M)
      → IsTriggered t ch config j m
      → IsTriggered t ch config j (synthetic_feed t now n rng_state m)
  unfolding synthetic_feed
  feed-IsTriggered now zero rng_state j m h = h
  feed-IsTriggered now (suc n) rng_state j m h =
      let next = xorshift rng_state in
      feed-IsTriggered (λ k. now (suc k)) n next j (synthetic_tick t (now 0) next m)
        (tick-IsTriggered (now 0) next j m h)

  -- The last call of a round that draws a multiple of 100.
  flagged :
      (at id : ℕ) (m : M)
      → IsKeyed t (view t m)
      → Store.contains t id m ≡ true
      → IsTriggered t ch config id (perform t (trigger_call at id true) m)
  unfolding perform Store.set_causal_trigger Store.contains view Store.get
  flagged at id m keyed there = elim (Option-cases (t.get id m)) [
    | inl gone ↦ absurd (ground arith)
    | inr (e, found) ↦ (
      record e { causal_trigger_bit = true; last_updated_ns = at },
      ground (
        arith,
        laws.get-alter id (λ x. record x { causal_trigger_bit = true; last_updated_ns = at }) m id,
        nat_beq_iff id id,
      ),
      keyed id e found,
      refl,
    )
  ]

  -- In a store in which entities stand under their own ids, a round of the synthetic feed that draws
  -- a multiple of 100 sets the trigger of the entity drawn, if it is there, and it is still set
  -- after any number of further rounds: the feed takes no trigger back.
  pub feed_triggers :
      (now : ℕ → Round) (n rng_state : ℕ) (m : M)
      → IsKeyed t (view t m)
      → Store.contains t (xorshift rng_state % entity_count) m ≡ true
      → xorshift rng_state % 100 ≡ 0
      → IsTriggered t ch config
          (xorshift rng_state % entity_count)
          (synthetic_feed t now (suc n) rng_state m)
  unfolding synthetic_feed run
  feed_triggers now n rng_state m keyed there hundred =
      let drawn = xorshift rng_state in
      let id = drawn % entity_count in
      let first : List (Call F D) =
        price_call (now 0).ticked_at id (d.lit 150 0)
        ∷ weight_call (now 0).weighed_at id (f.lit 200 0) (f.lit 9 1) (f.lit 1 1)
        ∷ [] in
      let m' = run t first m in
      let last : Call F D = trigger_call (now 0).flagged_at id true in
      let draws : ltb (drawn % 100) 1 ≡ true = ground (arith, hundred) in
      let all : synthetic_tick t (now 0) drawn m ≡ perform t last m' =
        tick-run (now 0) drawn m ∙ ap (λ b. run t (if b then last ∷ [] else []) m') draws in
      let set =
        flagged (now 0).flagged_at id m' (run-IsKeyed t laws first m keyed)
          (run-contains t laws first m id there) in
      feed-IsTriggered (λ k. now (suc k)) n drawn id (synthetic_tick t (now 0) drawn m)
        (subst (IsTriggered t ch config id) (sym all) set)
