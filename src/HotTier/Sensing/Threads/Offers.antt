-- ===== src/HotTier/Sensing/Threads/Offers.antt =====
-- No trigger is missed: `SensingAgent` (crates/hot-tier/src/lib.rs) offers the signal of every
-- trigger that is set, whatever the other threads do meanwhile.
use mathlib.Core.Option
use atlas_hpc.Base.{
  ℕ, ◌<◌, ◌≡◌, sym, ◌∙◌, subst, true, false, [], ◌∷◌, ◌==◌, nat_eq, nat_beq_iff, arith, Bool-cases,
  Option-cases, ◌⊎◌, inl, inr,
}
use atlas_hpc.Base.Dict
use atlas_hpc.Base.Dict.{Dict}
use atlas_hpc.Base.Float.{Float}
use atlas_hpc.HotTier.Channel.{Channel}
use atlas_hpc.HotTier.DashMap.{DashMap, IsDashMap}
use atlas_hpc.HotTier.Store
use atlas_hpc.HotTier.Store.Laws.{Call, insert_call, weight_call, trigger_call, price_call, perform}
use atlas_hpc.Types.Entity.{WeightedEntity}
use atlas_hpc.Types.Signal.{SignalEvent}
use atlas_hpc.HotTier.Sensing.{SensingConfig, Instants, Sensor, check_spike}
use atlas_hpc.HotTier.Sensing.Threads.{
  Phase, waiting, collecting, checking, notifying, weighing, write, advance,
}
use atlas_hpc.HotTier.Sensing.Threads.Triggers.{
  KeepsTrigger, In_keys, cost, IsTriggered, Pending, shorter,
}

module _ {F D M C : Type 0} ⦃f : Float F⦄ (t : DashMap (WeightedEntity F D) M)
    (ch : Channel (SignalEvent F) C) (config : SensingConfig F) where
  module _ (laws : IsDashMap t) where
    kept_trigger :
        (j k : ℕ) (g : WeightedEntity F D → WeightedEntity F D) (m : M)
        → ((e : WeightedEntity F D)
            → k ≡ j
            → e.entity_id ≡ j
            → e.causal_trigger_bit ≡ true
            → ((g e).entity_id ≡ j) × ((g e).causal_trigger_bit ≡ true))
        → IsTriggered t ch config j m
        → IsTriggered t ch config j (t.alter k g m)
    kept_trigger j k g m keeps (e, found, same, bit) = elim (Bool-cases (k == j)) [
      | inl here ↦
          let id : k ≡ j = (nat_beq_iff k j).0 here in
          let (same', bit') = keeps e id same bit in
          (g e, ground (arith, laws.get-alter k g m j), same', bit')
      | inr other ↦ (e, ground (arith, laws.get-alter k g m j), same, bit)
    ]

    pub write_trigger :
        (j : ℕ) (c : Call F D) (m : M)
        → KeepsTrigger j (write c)
        → IsTriggered t ch config j m
        → IsTriggered t ch config j (perform t c m)
    unfolding perform Store.insert Store.update_weight Store.set_causal_trigger Store.tick_price
        Store.reweigh
    write_trigger j (insert_call x) m other (e, found, same, bit) =
        (e, ground (arith, laws.get-insert x.entity_id x m j, nat_beq_iff x.entity_id j), same, bit)
    write_trigger j (weight_call now k surprise alpha beta) m _ h =
        let weighed =
          kept_trigger j k (Store.reweigh now surprise alpha beta) m
            (λ x here same bit. (same, bit)) h in
        elim (Option-cases (t.get k m)) [
          | inl gone ↦
              let same : perform t (weight_call now k surprise alpha beta) m ≡ m = ground arith in
              subst (IsTriggered t ch config j) (sym same) h
          | inr (e, there) ↦
              let same : perform t (weight_call now k surprise alpha beta) m
                  ≡ t.alter k (Store.reweigh now surprise alpha beta) m =
                ground arith in
              subst (IsTriggered t ch config j) (sym same) weighed
        ]
    write_trigger j (trigger_call now k b) m sets h =
        kept_trigger j k _ m (λ x here same bit. (same, sets here)) h
    write_trigger j (price_call now k p) m _ h =
        kept_trigger j k _ m (λ x here same bit. (same, bit)) h

    -- While the trigger of `j` is set, an access of the agent comes nearer to the next snapshot,
    -- which has it, or is bound to offer it.
    pub trigger_step :
        (j : ℕ) (at : Instants) (p : Phase F D) (s : Sensor F M C)
        → IsTriggered t ch config j s.store
        → Pending t ch config j
            (advance t ch config at p s).phase
            (advance t ch config at p s).sensor.store
          ⊎ (IsTriggered t ch config j (advance t ch config at p s).sensor.store
              × (cost (advance t ch config at p s).phase < cost p))
    unfolding advance Store.set_causal_trigger check_spike
    trigger_step j at waiting s (e, found, same, bit) = inl (
        inr (
          In_keys (t.entries s.store) j e (laws.lookup-entries s.store j ∙ found),
          (e, found, same, bit),
        ))
    trigger_step j at (collecting [] v) s h = inr (h, omega arith)
    trigger_step j at (collecting (k ∷ ks) v) s h = inr (h, shorter t ch config k s.store ks v)
    trigger_step j at (checking []) s h = inr (h, omega arith)
    trigger_step j at (checking (x ∷ es)) s h = elim (Bool-cases x.causal_trigger_bit) [
      | inl set ↦ elim (Bool-cases (x.entity_id == j)) [
        | inl here ↦ rw set (inl (inl ((nat_beq_iff x.entity_id j).0 here)))
        | inr other ↦
            let kept =
              kept_trigger j x.entity_id
                (λ e. record e { causal_trigger_bit = false; last_updated_ns = at.reset_at })
                s.store (λ e here same bit. ground (arith, nat_beq_iff x.entity_id j)) h in
            rw set (inr (kept, omega arith))
      ]
      | inr unset ↦ rw unset (inr (h, omega arith))
    ]
    trigger_step j at (notifying e es) s h = inr (h, omega arith)
    trigger_step j at (weighing e es) s h =
        let weight = e.importance_weight in
        elim (Bool-cases (
          f.le config.spike_threshold (
            f.abs
              (f.sub weight (Option.get_or (Dict.lookup e.entity_id s.prev_weights) weight))))) [
                | inl spiked ↦ rw spiked (inr (h, omega arith))
                | inr flat ↦ rw flat (inr (h, omega arith))
              ]

    -- Nor does a call that keeps the trigger take that from it.
    pub write-Pending :
        (j : ℕ) (c : Call F D) (p : Phase F D) (m : M)
        → KeepsTrigger j (write c)
        → Pending t ch config j p m
        → Pending t ch config j p (perform t c m)
    write-Pending j c waiting m keeps h = h
    write-Pending j c (collecting ks v) m keeps (inl due) = inl due
    write-Pending j c (collecting ks v) m keeps (inr (i, set)) =
        inr (i, write_trigger j c m keeps set)
    write-Pending j c (checking es) m keeps h = h
    write-Pending j c (notifying e es) m keeps h = h
    write-Pending j c (weighing e es) m keeps h = h
