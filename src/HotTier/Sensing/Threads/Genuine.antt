-- ===== src/HotTier/Sensing/Threads/Genuine.antt =====
-- No signal is made up: what `SensingAgent` (crates/hot-tier/src/lib.rs) sends is true of entities
-- that stood in the store, whatever the other threads do meanwhile.
use mathlib.Core.Option
use atlas_hpc.Base.{
  ℕ, zero, suc, ◌≡◌, refl, sym, ap, subst, true, some, [], ◌∷◌, map, ◌==◌, nat_eq, nat_beq_iff,
  take, In, In-append, arith, Bool-cases, Option-cases, ◌⊎◌, inl, inr,
}
use atlas_hpc.Base.Dict
use atlas_hpc.Base.Dict.{Dict, Distinct}
use atlas_hpc.Base.Float.{Float}
use atlas_hpc.HotTier.Channel.{Channel, IsChannel}
use atlas_hpc.HotTier.DashMap.{DashMap}
use atlas_hpc.Types.Entity.{WeightedEntity}
use atlas_hpc.Types.Signal.{SignalEvent, weight_spike, causal_trigger}
use atlas_hpc.HotTier.Sensing.{SensingConfig, Instants, Sensor, check_spike}
use atlas_hpc.HotTier.Sensing.Threads.{
  Phase, waiting, collecting, checking, notifying, weighing, System, new,
}

pub entries_In :
    {V : Type 0} (m : Dict ℕ V) (v : V)
    → Distinct m
    → In v (map (λ p. p.1) m)
    → (k : ℕ) × (Dict.lookup k m ≡ some v)
unfolding Dict.lookup
entries_In [] v d i = absurd i
entries_In ((j, w) ∷ m) v (new_key, d) (inl here) = (j, ground (arith, nat_beq_iff j j))
entries_In ((j, w) ∷ m) v (new_key, d) (inr later) =
    let (k, found) = entries_In m v d later in
    elim (Bool-cases (k == j)) [
      | inl same ↦
          let e : Dict.lookup k m ≡ Dict.lookup j m =
            ap (λ x. Dict.lookup x m) ((nat_beq_iff k j).0 same) in
          absurd (ground arith)
      | inr other ↦ (k, ground arith)
    ]

In_take : {S : Type 0} (n : ℕ) (x y : S) → In y (take n (x ∷ [])) → y ≡ x
In_take zero x y i = absurd i
In_take (suc zero) x y (inl e) = e
In_take (suc zero) x y (inr i) = absurd i
In_take (suc (suc n)) x y (inl e) = e
In_take (suc (suc n)) x y (inr i) = absurd i

module _ {F D : Type 0} ⦃f : Float F⦄ (config : SensingConfig F)
    (Stood : WeightedEntity F D → Type 0) where
  -- The signal is true of entities of which `Stood` holds: one with its trigger set, or one with
  -- the new weight, whose distance from an earlier weight reaches the threshold.
  abbrev pub IsGenuine : SignalEvent F → Type 0
  IsGenuine (causal_trigger id at) =
      (e : WeightedEntity F D) × Stood e × (e.entity_id ≡ id) × (e.causal_trigger_bit ≡ true)
  IsGenuine (weight_spike id delta w at) =
      (e : WeightedEntity F D) × (prev : F) × Stood e
      × (e.entity_id ≡ id)
      × (e.importance_weight ≡ w)
      × (delta ≡ f.abs (f.sub w prev))
      × (f.le config.spike_threshold delta ≡ true)
      × ((prev ≡ w)
          ⊎ ((e' : WeightedEntity F D) × Stood e'
              × (e'.entity_id ≡ id)
              × (e'.importance_weight ≡ prev)))

module _ {F D : Type 0} where
  -- The entities that the agent still handles.
  abbrev pub InHand : Phase F D → WeightedEntity F D → Type 0
  InHand waiting e = ⊥
  InHand (collecting ks v) e = In e v
  InHand (checking es) e = In e es
  InHand (notifying x es) e = (e ≡ x) ⊎ In e es
  InHand (weighing x es) e = (e ≡ x) ⊎ In e es

  -- A signal that is about to be sent is of a trigger that was set.
  abbrev pub IsArmed : Phase F D → Type 0
  IsArmed (notifying x es) = x.causal_trigger_bit ≡ true
  IsArmed _ = Unit

module _ {F D M C : Type 0} ⦃f : Float F⦄ (t : DashMap (WeightedEntity F D) M)
    (ch : Channel (SignalEvent F) C) (config : SensingConfig F) (b : IsChannel ch) where
  module _ (Stood : WeightedEntity F D → Type 0) where
    -- All that the agent has and has sent is of entities of which `Stood` holds.
    pub record IsTrue (s : System F D M C) : Type 0 where
      pub queue : (x : SignalEvent F) → In x (b.queued s.sensor.tx) → IsGenuine config Stood x
      pub hand : (e : WeightedEntity F D) → InHand s.phase e → Stood e
      pub armed : IsArmed s.phase
      pub weights :
          (id : ℕ) (w : F)
          → Dict.lookup id s.sensor.prev_weights ≡ some w
          → (e : WeightedEntity F D) × Stood e × (e.entity_id ≡ id) × (e.importance_weight ≡ w)

    -- One more message.
    pub sent_True :
        (x : SignalEvent F) (c : C)
        → ((y : SignalEvent F) → In y (b.queued c) → IsGenuine config Stood y)
        → IsGenuine config Stood x
        → (y : SignalEvent F) → In y (b.queued (ch.sender.try_send x c))
        → IsGenuine config Stood y
    sent_True x c old new y i =
        let j = subst (In y) (b.queued-send x c) i in
        elim ((In-append y (b.queued c) (take (b.room c) (x ∷ []))).0 j) [
          | inl there ↦ old y there
          | inr here ↦ subst (IsGenuine config Stood) (sym (In_take (b.room c) x y here)) new
        ]

    -- The spike check.
    pub spike_True :
        (at : Instants) (e : WeightedEntity F D) (s : Sensor F M C)
        → Stood e
        → ((y : SignalEvent F) → In y (b.queued s.tx) → IsGenuine config Stood y)
        → ((id : ℕ) (w : F)
            → Dict.lookup id s.prev_weights ≡ some w
            → (x : WeightedEntity F D) × Stood x × (x.entity_id ≡ id) × (x.importance_weight ≡ w))
        → (y : SignalEvent F) → In y (b.queued (check_spike t ch.sender config at e s).tx)
        → IsGenuine config Stood y
    unfolding check_spike
    spike_True at e s stands queue weights y i =
        let weight = e.importance_weight in
        let before = Dict.lookup e.entity_id s.prev_weights in
        let prev = Option.get_or before weight in
        let delta = f.abs (f.sub weight prev) in
        let earlier : (prev ≡ weight)
            ⊎ ((e' : WeightedEntity F D) × Stood e'
                × (e'.entity_id ≡ e.entity_id)
                × (e'.importance_weight ≡ prev)) =
          elim (Option-cases before) [
            | inl unknown ↦ inl (ground arith)
            | inr (w, known) ↦
                let (e', stood, same, w_is) = weights e.entity_id w known in
                inr (e', stood, same, ground arith)
          ] in
        let spike : SignalEvent F = weight_spike e.entity_id delta weight at.spike_at in
        elim (Bool-cases (f.le config.spike_threshold delta)) [
          | inl spiked ↦
              let checked : (check_spike t ch.sender config at e s).tx
                  ≡ ch.sender.try_send spike s.tx =
                rw spiked refl in
              sent_True spike s.tx queue (e, prev, stands, refl, refl, refl, spiked, earlier) y
                (subst (λ c. In y (b.queued c)) checked i)
          | inr flat ↦
              let checked : (check_spike t ch.sender config at e s).tx ≡ s.tx = rw flat refl in
              queue y (subst (λ c. In y (b.queued c)) checked i)
        ]
