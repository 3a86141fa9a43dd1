-- ===== src/HotTier/Sensing/Threads/Steps.antt =====
-- One access of `SensingAgent` or another thread (crates/hot-tier/src/lib.rs): what is true stays
-- true.
use atlas_hpc.Base.{
  ℕ, ◌≤◌, ◌≡◌, refl, sym, ap, subst, Bool, Option, none, some, [], ◌∷◌, ◌==◌, nat_eq, nat_beq_iff,
  In, In-append, arith, Bool-cases, List-cases, inl, inr, if◌then◌else◌, false,
}
use atlas_hpc.Base.Dict
use atlas_hpc.Base.Dict.{Dict}
use atlas_hpc.Base.Float.{Float}
use atlas_hpc.HotTier.Channel.{Channel, IsChannel}
use atlas_hpc.HotTier.DashMap.{DashMap, IsDashMap}
use atlas_hpc.HotTier.Store.{set_causal_trigger}
use atlas_hpc.Types.Entity.{WeightedEntity}
use atlas_hpc.Types.Signal.{SignalEvent, weight_spike, causal_trigger}
use atlas_hpc.HotTier.Sensing.{SensingConfig, Instants, check_spike}
use atlas_hpc.HotTier.Sensing.Threads.{
  Phase, waiting, collecting, checking, to_list, notifying, weighing, System, Event, agent, write,
  receive, advance, step, handed, state_at, to_list,
}
use atlas_hpc.HotTier.Sensing.Threads.Genuine.{
  IsGenuine, InHand, IsArmed, IsTrue, sent_True, spike_True,
}

pub In_to_list : {S : Type 0} (o : Option S) (x : S) → In x (to_list o) → o ≡ some x
In_to_list none x i = absurd i
In_to_list (some y) x (inl e) = ap some (sym e)
In_to_list (some y) x (inr i) = absurd i

module _ {F D M C : Type 0} ⦃f : Float F⦄ (t : DashMap (WeightedEntity F D) M)
    (ch : Channel (SignalEvent F) C) (config : SensingConfig F) (events : ℕ → Event F D)
    (s : System F D M C) where
  -- The entity stood in the store at some time up to `n`.
  abbrev pub StoodBy : ℕ → WeightedEntity F D → Type 0
  StoodBy n e =
      (i : ℕ) × (k : ℕ) × (i ≤ n)
      × (t.get k (state_at t ch config events s i).sensor.store ≡ some e)

module _ {F D M C : Type 0} ⦃f : Float F⦄ (t : DashMap (WeightedEntity F D) M)
    (ch : Channel (SignalEvent F) C) (config : SensingConfig F) (b : IsChannel ch) where
  module _ (laws : IsDashMap t) (Stood : WeightedEntity F D → Type 0) where
    -- Every entity of the store is one of which `Stood` holds.
    abbrev pub AllStand : M → Type 0
    AllStand m = (k : ℕ) (e : WeightedEntity F D) → t.get k m ≡ some e → Stood e

    pub advance_True :
        (at : Instants) (s : System F D M C)
        → AllStand s.sensor.store
        → (p : Phase F D) → s.phase ≡ p
        → IsTrue t ch config b Stood s
        → IsTrue t ch config b Stood (advance t ch config at p s.sensor)
    unfolding advance check_spike
    advance_True at s stand waiting e h = record {
      queue = h.queue;
      hand = λ x i. absurd i;
      armed = tt;
      weights = h.weights;
    }
    advance_True at s stand (collecting [] v) e h = record {
      queue = h.queue;
      hand = λ x i. h.hand x (subst (λ q. InHand q x) (sym e) i);
      armed = tt;
      weights = h.weights;
    }
    advance_True at s stand (collecting (k ∷ ks) v) e h = record {
      queue = h.queue;
      hand = λ x i. elim ((In-append x v (to_list (t.get k s.sensor.store))).0 i) [
        | inl old ↦ h.hand x (subst (λ q. InHand q x) (sym e) old)
        | inr read ↦ stand k x (In_to_list (t.get k s.sensor.store) x read)
      ];
      armed = tt;
      weights = h.weights;
    }
    advance_True at s stand (checking []) e h = record {
      queue = h.queue;
      hand = λ x i. absurd i;
      armed = tt;
      weights = h.weights;
    }
    advance_True at s stand (checking (x ∷ es)) e h =
        let hand = λ (y : WeightedEntity F D) (i : In y (x ∷ es)).
          h.hand y (subst (λ q. InHand q y) (sym e) i) in
        let reset : System F D M C = record {
          sensor = record s.sensor {
            store = set_causal_trigger t at.reset_at x.entity_id false s.sensor.store;
          };
          phase = notifying x es;
        } in
        let kept : System F D M C = record { sensor = s.sensor; phase = weighing x es } in
        let branch = λ (c : Bool). if c then reset else kept in
        elim (Bool-cases x.causal_trigger_bit) [
          | inl set ↦
              subst (IsTrue t ch config b Stood) (sym (ap branch set))
                (record { queue = h.queue; hand = hand; armed = set; weights = h.weights })
          | inr unset ↦
              subst (IsTrue t ch config b Stood) (sym (ap branch unset))
                (record { queue = h.queue; hand = hand; armed = tt; weights = h.weights })
        ]
    advance_True at s stand (notifying x es) e h =
        let stands = h.hand x (subst (λ q. InHand q x) (sym e) (inl refl)) in
        let set = subst (IsArmed) e h.armed in
        record {
          queue =
              sent_True t ch config b Stood (causal_trigger x.entity_id at.trigger_at) s.sensor.tx
                h.queue (x, stands, refl, set);
          hand = λ y i. h.hand y (subst (λ q. InHand q y) (sym e) i);
          armed = tt;
          weights = h.weights;
        }
    advance_True at s stand (weighing x es) e h =
        let stands = h.hand x (subst (λ q. InHand q x) (sym e) (inl refl)) in
        let checked = check_spike t ch.sender config at x s.sensor in
        record {
          queue = spike_True t ch config b Stood at x s.sensor stands h.queue h.weights;
          hand = λ y i. h.hand y (subst (λ q. InHand q y) (sym e) (inr i));
          armed = tt;
          weights = λ id w found.
              let read =
                Dict.lookup-insert x.entity_id x.importance_weight id s.sensor.prev_weights in
              let same : checked.prev_weights ≡ s.sensor.prev_weights = ground arith in
              elim (Bool-cases (x.entity_id == id)) [
                | inl here ↦ (x, stands, (nat_beq_iff x.entity_id id).0 here, ground arith)
                | inr other ↦ h.weights id w (ground arith)
              ];
        }

    pub step_True :
        (ev : Event F D) (s : System F D M C)
        → AllStand s.sensor.store
        → IsTrue t ch config b Stood s
        → IsTrue t ch config b Stood (step t ch config ev s)
          × ((x : SignalEvent F) → handed t ch config ev s ≡ some x → IsGenuine config Stood x)
    unfolding step handed
    step_True (agent at) s stand h = (advance_True at s stand s.phase refl h, λ x out. cc)
    step_True (write c) s stand h = (
      record { queue = h.queue; hand = h.hand; armed = h.armed; weights = h.weights },
      λ x out. cc,
    )
    step_True receive s stand h = elim (List-cases (b.queued s.sensor.tx)) [
      | inl empty ↦
          let none_out = b.recv_none s.sensor.tx empty in
          (
            record {
              queue = λ x i. h.queue x (subst (λ r. In x (b.queued r.1)) none_out i);
              hand = h.hand;
              armed = h.armed;
              weights = h.weights;
            },
            λ x out. absurd (ground (arith, ap (λ r. r.0) none_out)),
          )
      | inr (y, ys, full) ↦
          let (out_is, left, _) = b.recv_some y ys s.sensor.tx full in
          let back =
            λ (x : SignalEvent F) (i : In x (y ∷ ys)). h.queue x (subst (In x) (sym full) i) in
          (
            record {
              queue = λ x i. back x (inr (subst (In x) left i));
              hand = h.hand;
              armed = h.armed;
              weights = h.weights;
            },
            λ x out. let e : x ≡ y = cc in back x (inl e),
          )
    ]

  -- What is true stays true of more entities.
  pub IsGenuine-mono :
      (A B : WeightedEntity F D → Type 0)
      → ((e : WeightedEntity F D) → A e → B e)
      → (x : SignalEvent F) → IsGenuine config A x
      → IsGenuine config B x
  IsGenuine-mono A B more (causal_trigger id at) (e, stood, same, bit) =
      (e, more e stood, same, bit)
  IsGenuine-mono A B more (weight_spike id delta w at)
        (e, prev, stood, same, is_w, d, le, inl flat) =
      (e, prev, more e stood, same, is_w, d, le, inl flat)
  IsGenuine-mono A B more (weight_spike id delta w at)
        (e, prev, stood, same, is_w, d, le, inr (e', stood', same', is_prev)) =
      (e, prev, more e stood, same, is_w, d, le, inr (e', more e' stood', same', is_prev))

  pub IsTrue-mono :
      (A B : WeightedEntity F D → Type 0)
      → ((e : WeightedEntity F D) → A e → B e)
      → (s : System F D M C) → IsTrue t ch config b A s
      → IsTrue t ch config b B s
  IsTrue-mono A B more s h = record {
    queue = λ x i. IsGenuine-mono A B more x (h.queue x i);
    hand = λ e i. more e (h.hand e i);
    armed = h.armed;
    weights = λ id w found.
        let (e, stood, same, is_w) = h.weights id w found in (e, more e stood, same, is_w);
  }
