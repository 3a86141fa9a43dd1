-- ===== src/HotTier/Sensing/Sweep.antt =====
-- A whole sweep of `SensingAgent` (crates/hot-tier/src/lib.rs), and two sweeps in a row.
use mathlib.Core.List.{append-nil}
use atlas_hpc.Base.{
  ℕ, ◌≡◌, sym, ◌∙◌, ap, true, false, none, some, ◌++◌, nat_eq, arith, take, Option-cases, inl, inr,
}
use atlas_hpc.Base.Dict
use atlas_hpc.Base.Dict.{Dict, Distinct}
use atlas_hpc.Base.Float.{Float}
use atlas_hpc.HotTier.Channel.{Sender, IsBounded, send_all_lem, take_nil}
use atlas_hpc.HotTier.DashMap.{DashMap, IsDashMap}
use atlas_hpc.Types.Entity.{WeightedEntity}
use atlas_hpc.Types.Signal.{SignalEvent}
use atlas_hpc.HotTier.Sensing.{SensingConfig, Instants, Sensor, snapshots, sweep}
use atlas_hpc.HotTier.Sensing.Detect.{
  detected, nothing_detected, In_by_id, is_empty, sense_all_tx, sense_all_weights,
}
use atlas_hpc.HotTier.Sensing.Resets.{Keyed, sense_all-Reset, snapshots-lookup, snapshots-Distinct}

module _ {F D M C : Type 0} ⦃f : Float F⦄ (t : DashMap (WeightedEntity F D) M)
    (sender : Sender (SignalEvent F) C) (config : SensingConfig F) where
  module _ (laws : IsDashMap t) where
    -- If every entity of the store stands under its own id, a sweep offers to the channel, in
    -- order, the trigger and the spike of each entity of the snapshot, with the weights of the last
    -- sweep. The free slots take the first of these, and the rest are lost. `idle` is left set
    -- exactly if nothing was detected.
    pub sweep_sends :
        (b : IsBounded sender) (at : ℕ → Instants) (s : Sensor F M C)
        → Keyed t s.store
        → let signals = detected config at 0 s.prev_weights (snapshots t sender config s.store) in
          (b.accepted (sweep t sender config at s).tx
            ≡ b.accepted s.tx ++ take (b.room s.tx) signals)
          × ((sweep t sender config at s).idle ≡ is_empty signals)
    unfolding sweep
    sweep_sends b at s h =
        let es = snapshots t sender config s.store in
        let (sent, idle) =
          sense_all_tx t sender config at 0 es (record s { idle = true })
            (snapshots-Distinct t sender config laws s.store h) in
        (ap b.accepted sent ∙ send_all_lem sender b _ s.tx, idle)

    -- If every entity of the store stands under its own id, no trigger is set after a sweep. The
    -- store has the same entities, and each differs from before in its trigger and its time at
    -- most.
    pub sweep_resets :
        (at : ℕ → Instants) (s : Sensor F M C)
        → Keyed t s.store
        → (j : ℕ)
        → ((t.get j s.store ≡ none) → t.get j (sweep t sender config at s).store ≡ none)
          × ((e : WeightedEntity F D)
              → t.get j s.store ≡ some e
              → (ns : ℕ) × (t.get j (sweep t sender config at s).store
                  ≡ some (record e { causal_trigger_bit = false; last_updated_ns = ns })))
    unfolding sweep
    sweep_resets at s h j =
        let es = snapshots t sender config s.store in
        let reset =
          sense_all-Reset t sender config laws at 0 es (record s { idle = true }) j
            (snapshots-Distinct t sender config laws s.store h) in
        let there = snapshots-lookup t sender config laws s.store h j in
        (
          reset.absent,
          λ e found. let (ns, after) = reset.present e found in (ns, ground (arith, there)),
        )

    -- If every entity of the store stands under its own id, `prev_weights` has the weight of each
    -- after a sweep.
    pub sweep_weights :
        (at : ℕ → Instants) (s : Sensor F M C)
        → Keyed t s.store
        → (j : ℕ) (e : WeightedEntity F D) → t.get j s.store ≡ some e
        → Dict.lookup j (sweep t sender config at s).prev_weights ≡ some e.importance_weight
    unfolding sweep
    sweep_weights at s h j e found =
        let es = snapshots t sender config s.store in
        let there = snapshots-lookup t sender config laws s.store h j in
        let read =
          sense_all_weights t sender config at 0 es (record s { idle = true }) j
            (snapshots-Distinct t sender config laws s.store h) in
        ground (arith, there, read)

    sweep-Keyed :
        (at : ℕ → Instants) (s : Sensor F M C)
        → Keyed t s.store
        → Keyed t (sweep t sender config at s).store
    sweep-Keyed at s h j e found =
        let (absent, present) = sweep_resets at s h j in
        elim (Option-cases (t.get j s.store)) [
          | inl gone ↦ ground (arith, absent gone)
          | inr (e0, found0) ↦ let (ns, after) = present e0 found0 in ground (arith, h j e0 found0)
        ]

    -- If every entity of the store stands under its own id and a weight less itself is below the
    -- threshold, a sweep that directly follows another sends nothing and leaves `idle` set: no
    -- trigger and no spike is reported twice.
    pub sweep_quiet :
        ((w : F) → f.le config.spike_threshold (f.abs (f.sub w w)) ≡ false)
        → (b : IsBounded sender) (at at' : ℕ → Instants) (s : Sensor F M C) → Keyed t s.store
        → let once = sweep t sender config at s in
          let twice = sweep t sender config at' once in
          (b.accepted twice.tx ≡ b.accepted once.tx) × (twice.idle ≡ true)
    sweep_quiet still b at at' s h =
        let once = sweep t sender config at s in
        let keyed = sweep-Keyed at s h in
        let es = snapshots t sender config once.store in
        let none_left = nothing_detected config still at' 0 once.prev_weights es (λ e i.
          let found =
            sym (snapshots-lookup t sender config laws once.store keyed e.entity_id)
            ∙ In_by_id es e (snapshots-Distinct t sender config laws once.store keyed) i in
          let (absent, present) = sweep_resets at s h e.entity_id in
          elim (Option-cases (t.get e.entity_id s.store)) [
            | inl gone ↦ absurd (ground (arith, absent gone))
            | inr (e0, found0) ↦
                let (ns, after) = present e0 found0 in
                let weight = sweep_weights at s h e.entity_id e0 found0 in
                let same : e ≡ record e0 { causal_trigger_bit = false; last_updated_ns = ns } =
                  cc in
                (
                  ap (λ (x : WeightedEntity F D). x.causal_trigger_bit) same,
                  weight
                      ∙ ap some (sym (ap (λ (x : WeightedEntity F D). x.importance_weight) same)),
                )
          ]) in
        let (sent, idle) = sweep_sends b at' once keyed in
        let old = b.accepted once.tx in
        (
          sent
              ∙ ap (λ xs. old ++ take (b.room once.tx) xs) none_left
              ∙ ap (◌++◌ old) (take_nil (b.room once.tx))
              ∙ append-nil old,
          idle ∙ ap is_empty none_left,
        )
