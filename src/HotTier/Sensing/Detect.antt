-- ===== src/HotTier/Sensing/Detect.antt =====
-- What one sweep of `SensingAgent` (crates/hot-tier/src/lib.rs) detects, sends and resets.
use mathlib.Core.Option
use atlas_hpc.Base.{
  ℕ, suc, ◌≡◌, refl, sym, ◌∙◌, ap, Bool, true, false, ◌&&◌, Option, none, some, List, [], ◌∷◌, ◌++◌,
  map, nat_eq, nat_beq_iff, In, if◌then◌else◌, arith, inl, inr,
}
use atlas_hpc.Base.Dict
use atlas_hpc.Base.Dict.{Dict, Distinct}
use atlas_hpc.Base.Float.{Float}
use atlas_hpc.HotTier.Channel.{Sender, send_all, send_all-append}
use atlas_hpc.HotTier.DashMap.{DashMap}
use atlas_hpc.HotTier.Store.{set_causal_trigger}
use atlas_hpc.Types.Entity.{WeightedEntity}
use atlas_hpc.Types.Signal.{SignalEvent, weight_spike, causal_trigger}
use atlas_hpc.HotTier.Sensing.{
  SensingConfig, Instants, Sensor, check_trigger, check_spike, sense, sense_all,
}

module _ {F D : Type 0} ⦃f : Float F⦄ (config : SensingConfig F) where
  -- The weight spike of an entity whose weight was `prev`, if it is one.
  pub spike : Instants → F → WeightedEntity F D → List (SignalEvent F)
  spike at prev e =
      let delta = f.abs (f.sub e.importance_weight prev) in
      if f.le config.spike_threshold delta
      then weight_spike e.entity_id delta e.importance_weight at.spike_at ∷ []
      else []

  -- The signals of one entity, given the weights that the last sweep saw.
  pub signals_of : Instants → Dict ℕ F → WeightedEntity F D → List (SignalEvent F)
  signals_of at weights e =
      (if e.causal_trigger_bit then causal_trigger e.entity_id at.trigger_at ∷ [] else [])
      ++ spike at (Option.get_or (Dict.lookup e.entity_id weights) e.importance_weight) e

  -- All signals of a sweep.
  pub detected : (ℕ → Instants) → ℕ → Dict ℕ F → List (WeightedEntity F D) → List (SignalEvent F)
  detected at k weights [] = []
  detected at k weights (e ∷ es) = signals_of (at k) weights e ++ detected at (suc k) weights es

  -- Entities with no trigger and with the weight of the last sweep give no signal.
  pub nothing_detected :
      ((w : F) → f.le config.spike_threshold (f.abs (f.sub w w)) ≡ false)
      → (at : ℕ → Instants) (k : ℕ) (weights : Dict ℕ F) (es : List (WeightedEntity F D))
      → ((e : WeightedEntity F D)
          → In e es
          → (e.causal_trigger_bit ≡ false)
            × (Dict.lookup e.entity_id weights ≡ some e.importance_weight))
      → detected at k weights es ≡ []
  unfolding detected signals_of spike
  nothing_detected still at k weights [] h = refl
  nothing_detected still at k weights (e ∷ es) h = ground (
    arith,
    h e (inl refl),
    still e.importance_weight,
    nothing_detected still at (suc k) weights es (λ x i. h x (inr i)),
  )

-- The entities by their own ids.
abbrev pub by_id : {F D : Type 0} → List (WeightedEntity F D) → Dict ℕ (WeightedEntity F D)
by_id es = map (λ e. (e.entity_id, e)) es

pub In_by_id :
    {F D : Type 0} (es : List (WeightedEntity F D)) (e : WeightedEntity F D)
    → Distinct (by_id es)
    → In e es
    → Dict.lookup e.entity_id (by_id es) ≡ some e
unfolding Dict.lookup
In_by_id [] e h i = absurd i
In_by_id (x ∷ es) e (new, h) i = elim i [
  | inl here ↦ ground (arith, nat_beq_iff e.entity_id x.entity_id, ap (λ y. y.entity_id) here)
  | inr later ↦
      let there = In_by_id es e h later in ground (arith, nat_beq_iff e.entity_id x.entity_id)
]

abbrev pub is_empty : {S : Type 0} → List S → Bool
is_empty [] = true
is_empty (x ∷ xs) = false

is_empty-append : {S : Type 0} (xs ys : List S) → is_empty (xs ++ ys) ≡ (is_empty xs && is_empty ys)
is_empty-append [] ys = refl
is_empty-append (x ∷ xs) ys = refl

module _ {F D M C : Type 0} ⦃f : Float F⦄ (t : DashMap (WeightedEntity F D) M)
    (sender : Sender (SignalEvent F) C) (config : SensingConfig F) where
  -- One entity.
  sense_tx :
      (at : Instants) (e : WeightedEntity F D) (s : Sensor F M C)
      → (sense t sender config at e s).tx
        ≡ send_all sender (signals_of config at s.prev_weights e) s.tx
  unfolding sense check_spike check_trigger signals_of spike send_all
  sense_tx at e s = ground arith

  sense_idle :
      (at : Instants) (e : WeightedEntity F D) (s : Sensor F M C)
      → (sense t sender config at e s).idle
        ≡ (s.idle && is_empty (signals_of config at s.prev_weights e))
  unfolding sense check_spike check_trigger signals_of spike
  sense_idle at e s = ground arith

  sense_weights :
      (at : Instants) (e : WeightedEntity F D) (s : Sensor F M C)
      → (sense t sender config at e s).prev_weights
        ≡ Dict.insert e.entity_id e.importance_weight s.prev_weights
  unfolding sense check_spike check_trigger
  sense_weights at e s = ground arith

  pub sense_store :
      (at : Instants) (e : WeightedEntity F D) (s : Sensor F M C)
      → (sense t sender config at e s).store ≡ (
          if e.causal_trigger_bit
          then set_causal_trigger t at.reset_at e.entity_id false s.store
          else s.store)
  unfolding sense check_spike check_trigger
  sense_store at e s = ground arith

  -- An entity that is not among `es` does not matter to what is detected in them.
  pub detected_fresh :
      (at : ℕ → Instants) (k j : ℕ) (w : F) (weights : Dict ℕ F) (es : List (WeightedEntity F D))
      → Dict.lookup j (by_id es) ≡ none
      → detected config at k (Dict.insert j w weights) es ≡ detected config at k weights es
  unfolding detected signals_of Dict.lookup
  detected_fresh at k j w weights [] h = refl
  detected_fresh at k j w weights (e ∷ es) h =
      let rest = detected_fresh at (suc k) j w weights es in
      ground (arith, rest, Dict.lookup-insert j w e.entity_id weights)

  pub sense_all_tx :
      (at : ℕ → Instants) (k : ℕ) (es : List (WeightedEntity F D)) (s : Sensor F M C)
      → Distinct (by_id es)
      → ((sense_all t sender config at k es s).tx
          ≡ send_all sender (detected config at k s.prev_weights es) s.tx)
        × ((sense_all t sender config at k es s).idle
            ≡ (s.idle && is_empty (detected config at k s.prev_weights es)))
  unfolding sense_all detected send_all
  sense_all_tx at k [] s h = (refl, ground arith)
  sense_all_tx at k (e ∷ es) s (new, h) =
      let s' = sense t sender config (at k) e s in
      let weights = sense_weights (at k) e s in
      let fresh = detected_fresh at (suc k) e.entity_id e.importance_weight s.prev_weights es new in
      let (sent, idle) = sense_all_tx at (suc k) es s' h in
      let first = signals_of config (at k) s.prev_weights e in
      let rest = detected config at (suc k) s.prev_weights es in
      let here : detected config at (suc k) s'.prev_weights es ≡ rest =
        ap (λ w. detected config at (suc k) w es) weights ∙ fresh in
      (
        sent
            ∙ ap (λ r. send_all sender r s'.tx) here
            ∙ ap (send_all sender rest) (sense_tx (at k) e s)
            ∙ sym (send_all-append sender first rest s.tx),
        idle
            ∙ ap (λ r. s'.idle && is_empty r) here
            ∙ ground (arith, sense_idle (at k) e s, is_empty-append first rest),
      )

  pub sense_all_weights :
      (at : ℕ → Instants) (k : ℕ) (es : List (WeightedEntity F D)) (s : Sensor F M C) (j : ℕ)
      → Distinct (by_id es)
      → Dict.lookup j (sense_all t sender config at k es s).prev_weights
        ≡ elim (Dict.lookup j (by_id es)) as (λ _. Option F) [
          | none ↦ Dict.lookup j s.prev_weights
          | some e ↦ some e.importance_weight
        ]
  unfolding sense_all Dict.lookup
  sense_all_weights at k [] s j h = refl
  sense_all_weights at k (e ∷ es) s j (new, h) =
      let s' = sense t sender config (at k) e s in
      let weights = ap (Dict.lookup j) (sense_weights (at k) e s) in
      let read = Dict.lookup-insert e.entity_id e.importance_weight j s.prev_weights in
      let rest = sense_all_weights at (suc k) es s' j h in
      ground (arith, nat_beq_iff j e.entity_id, nat_beq_iff e.entity_id j)
