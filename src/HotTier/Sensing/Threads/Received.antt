-- ===== src/HotTier/Sensing/Threads/Received.antt =====
-- What the receiver of `SensingAgent` (crates/hot-tier/src/lib.rs) gets: a trigger that is set comes
-- out of the channel, unless the channel is full when the agent offers it.
use mathlib.Core.Option
use mathlib.Core.List.{append-nil, append_assoc}
use atlas_hpc.Base.{
  ℕ, zero, suc, ◌+◌, ◌≤◌, ◌<◌, ◌≡◌, refl, sym, ◌∙◌, ap, subst, some, List, [], ◌∷◌, ◌++◌, take, In,
  In-append, arith, Bool-cases, ◌⊎◌, nat_eq, inl, inr,
}
use atlas_hpc.Base.Dict
use atlas_hpc.Base.Float.{Float}
use atlas_hpc.HotTier.Channel.{Channel, IsChannel, take_nil}
use atlas_hpc.HotTier.DashMap.{DashMap, IsDashMap}
use atlas_hpc.Types.Entity.{WeightedEntity}
use atlas_hpc.Types.Signal.{SignalEvent, weight_spike, causal_trigger}
use atlas_hpc.HotTier.Sensing.{SensingConfig, Instants, Sensor, check_spike}
use atlas_hpc.HotTier.Sensing.Threads.{
  Phase, waiting, collecting, checking, notifying, weighing, System, Event, agent, write, receive,
  advance, step, handed, state_at, inbox,
}
use atlas_hpc.HotTier.Sensing.Threads.Triggers.{IsFair, KeepsTrigger, IsTriggered, Offers}
use atlas_hpc.HotTier.Sensing.Threads.Offered.{trigger-IsOffered}

-- The receiver is scheduled again and again.
abbrev pub IsDrained : {F D : Type 0} → (ℕ → Event F D) → Type 0
IsDrained events = (n : ℕ) → (k : ℕ) × (events (k + n) ≡ receive)

-- The event is `receive`, or another.
pub receive_or : {F D : Type 0} (ev : Event F D) → (ev ≡ receive) ⊎ ((ev ≡ receive) → ⊥)
receive_or (agent at) = inr (λ h. cc)
receive_or (write c) = inr (λ h. cc)
receive_or receive = inl refl

pub zero_or : (n : ℕ) → (n ≡ 0) ⊎ (0 < n)
zero_or zero = inl refl
zero_or (suc n) = inr (omega arith)

pub take_some : {S : Type 0} (n : ℕ) (x : S) → 0 < n → take n (x ∷ []) ≡ x ∷ []
take_some zero x h = absurd (omega arith)
take_some (suc n) x h = ap (◌∷◌ x) (take_nil n)

module _ {F D M C : Type 0} ⦃f : Float F⦄ (t : DashMap (WeightedEntity F D) M)
    (ch : Channel (SignalEvent F) C) (config : SensingConfig F) where
  -- An access of the agent sends one message at most.
  pub advance_tx :
      (at : Instants) (p : Phase F D) (s : Sensor F M C)
      → ((advance t ch config at p s).sensor.tx ≡ s.tx)
        ⊎ ((x : SignalEvent F) × ((advance t ch config at p s).sensor.tx
              ≡ ch.sender.try_send x s.tx))
  unfolding advance check_spike
  advance_tx at waiting s = inl refl
  advance_tx at (collecting [] v) s = inl refl
  advance_tx at (collecting (k ∷ ks) v) s = inl refl
  advance_tx at (checking []) s = inl refl
  advance_tx at (checking (e ∷ es)) s = inl (ground arith)
  advance_tx at (notifying e es) s = inr (causal_trigger e.entity_id at.trigger_at, refl)
  advance_tx at (weighing e es) s =
      let weight = e.importance_weight in
      let delta =
        f.abs (f.sub weight (Option.get_or (Dict.lookup e.entity_id s.prev_weights) weight)) in
      elim (Bool-cases (f.le config.spike_threshold delta)) [
        | inl spiked ↦ inr (weight_spike e.entity_id delta weight at.spike_at, rw spiked refl)
        | inr flat ↦ inl (rw flat refl)
      ]

  module _ (b : IsChannel ch) where
    abbrev queue : System F D M C → List (SignalEvent F)
    queue s = b.queued s.sensor.tx

    advance_queue :
        (at : Instants) (p : Phase F D) (s : Sensor F M C)
        → (ys : List (SignalEvent F)) × (queue (advance t ch config at p s) ≡ b.queued s.tx ++ ys)
    advance_queue at p s = elim (advance_tx at p s) [
      | inl same ↦ ([], ap b.queued same ∙ sym (append-nil (b.queued s.tx)))
      | inr (x, sent) ↦ (take (b.room s.tx) (x ∷ []), ap b.queued sent ∙ b.queued-send x s.tx)
    ]

    -- The others add to the end of the queue.
    step_queue :
        (ev : Event F D) (s : System F D M C)
        → (ev ≡ receive → ⊥)
        → (ys : List (SignalEvent F)) × (queue (step t ch config ev s) ≡ queue s ++ ys)
    unfolding step
    step_queue (agent at) s other = advance_queue at s.phase s.sensor
    step_queue (write c) s other = ([], sym (append-nil (queue s)))
    step_queue receive s other = absurd (other refl)

    step_receive :
        (s : System F D M C) (x : SignalEvent F) (xs : List (SignalEvent F))
        → queue s ≡ x ∷ xs
        → (queue (step t ch config receive s) ≡ xs) × (handed t ch config receive s ≡ some x)
    unfolding step handed
    step_receive s x xs h = let r = b.recv_some x xs s.sensor.tx h in (r.1, r.0)

    module _ (events : ℕ → Event F D) (s : System F D M C) where
      abbrev state : ℕ → System F D M C
      state = state_at t ch config events s

      abbrev box : ℕ → List (SignalEvent F)
      box = inbox t ch config events s

      next_receive :
          (before : List (SignalEvent F)) (x : SignalEvent F) (k n : ℕ)
          (after : List (SignalEvent F))
          → events (k + n) ≡ receive
          → queue (state n) ≡ before ++ x ∷ after
          → (m : ℕ) × (rest : List (SignalEvent F)) × (n ≤ m)
            × (events m ≡ receive)
            × (queue (state m) ≡ before ++ x ∷ rest)
      unfolding state_at
      next_receive before x zero n after h q =
          let e : 0 + n ≡ n = omega arith in
          (n, after, omega arith, subst (λ i. events i ≡ receive) e h, q)
      next_receive before x (suc k) n after h q = elim (receive_or (events n)) [
        | inl mine ↦ (n, after, omega arith, mine, q)
        | inr other ↦
            let e : suc k + n ≡ k + suc n = omega arith in
            let (ys, grown) = step_queue (events n) (state n) other in
            let (m, rest, le, mine, q') =
              next_receive before x k (suc n) (after ++ ys) (subst (λ i. events i ≡ receive) e h)
                (grown ∙ ap (λ z. z ++ ys) q ∙ append_assoc before (x ∷ after) ys) in
            (m, rest, omega arith, mine, q')
      ]

      box_receive :
          (m : ℕ) (x : SignalEvent F)
          → events m ≡ receive
          → handed t ch config receive (state m) ≡ some x
          → In x (box (suc m))
      unfolding inbox
      box_receive m x mine out =
          let e : handed t ch config (events m) (state m) ≡ some x =
            ap (λ ev. handed t ch config ev (state m)) mine ∙ out in
          rw e ((In-append x (box m) (x ∷ [])).1 (inr (inl refl)))

      -- What is queued comes out.
      queued_received :
          IsDrained events
          → (before : List (SignalEvent F)) (x : SignalEvent F) (after : List (SignalEvent F))
            (n : ℕ)
          → queue (state n) ≡ before ++ x ∷ after
          → (m : ℕ) × (n ≤ m) × In x (box m)
      unfolding state_at
      queued_received drained [] x after n q =
          let (k, h) = drained n in
          let (m, rest, le, mine, q') = next_receive [] x k n after h q in
          (suc m, omega arith, box_receive m x mine (step_receive (state m) x rest q').1)
      queued_received drained (y ∷ ys) x after n q =
          let (k, h) = drained n in
          let (m, rest, le, mine, q') = next_receive (y ∷ ys) x k n after h q in
          let out = (step_receive (state m) y (ys ++ x ∷ rest) q').0 in
          let (i, le', got) =
            queued_received drained ys x rest (suc m)
              (ap (λ ev. queue (step t ch config ev (state m))) mine ∙ out) in
          (i, omega arith, got)

      -- At some time from `n` on the agent offers the trigger of `j`. Either the channel is full
      -- then, or the receiver is handed the signal in the end.
      abbrev pub IsDelivered : ℕ → ℕ → Type 0
      IsDelivered j n =
          (m : ℕ) × (at : Instants) × (n ≤ m)
          × (events m ≡ agent at)
          × Offers t ch config j at (state m).sensor.tx (state (suc m)).sensor.tx
          × ((b.room (state m).sensor.tx ≡ 0)
              ⊎ ((i : ℕ) × (m < i) × In (causal_trigger j at.trigger_at) (box i)))

      -- If the agent and the receiver are scheduled again and again and no call takes the trigger of
      -- entity `j` back, then whenever the entity stands in the store with its trigger set, the agent
      -- later offers a CausalTrigger of it, and either the channel is full at that time, or the
      -- receiver is handed that signal in the end.
      pub trigger-IsDelivered :
          IsDashMap t
          → IsFair events
          → IsDrained events
          → (j : ℕ) → ((n : ℕ) → KeepsTrigger j (events n))
          → (n : ℕ) → IsTriggered t ch config j (state n).sensor.store
          → IsDelivered j n
      trigger-IsDelivered laws fair drained j keeps n p =
          let (m, at, le, mine, offer) =
            trigger-IsOffered t ch config events s laws fair j keeps n p in
          let c = (state m).sensor.tx in
          let x : SignalEvent F = causal_trigger j at.trigger_at in
          let sent = ap b.queued offer ∙ b.queued-send x c in
          elim (zero_or (b.room c)) [
            | inl full ↦ (m, at, le, mine, offer, inl full)
            | inr room ↦
                let took : take (b.room c) (x ∷ []) ≡ x ∷ [] = take_some (b.room c) x room in
                let (i, le', got) =
                  queued_received drained (b.queued c) x [] (suc m)
                    (sent ∙ ap (◌++◌ (b.queued c)) took) in
                (m, at, le, mine, offer, inr (i, omega arith, got))
          ]
