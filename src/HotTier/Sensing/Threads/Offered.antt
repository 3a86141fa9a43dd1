-- ===== src/HotTier/Sensing/Threads/Offered.antt =====
-- Endless schedules of `SensingAgent` (crates/hot-tier/src/lib.rs) and the other threads, in which
-- the agent goes on: every trigger that is set is offered to the channel.
use atlas_hpc.Base.{
  ℕ, zero, suc, ◌+◌, ◌≤◌, ◌<◌, ◌≡◌, refl, sym, ◌∙◌, ap, subst, none, some, arith, Option-cases, inl,
  inr,
}
use atlas_hpc.Base.Float.{Float}
use atlas_hpc.HotTier.Channel.{Channel}
use atlas_hpc.HotTier.DashMap.{DashMap, IsDashMap}
use atlas_hpc.Types.Entity.{WeightedEntity}
use atlas_hpc.Types.Signal.{SignalEvent}
use atlas_hpc.HotTier.Sensing.{SensingConfig, Instants}
use atlas_hpc.HotTier.Sensing.Threads.{
  System, Event, agent, write, receive, advance, step, state_at,
}
use atlas_hpc.HotTier.Sensing.Threads.Offers.{write_trigger, write-Pending, trigger_step}
use atlas_hpc.HotTier.Sensing.Threads.Triggers.{
  agent_at, IsFair, KeepsTrigger, Pending, cost, IsTriggered, Offers, Pending-step,
}

agent_at-eq :
    {F D : Type 0} (ev : Event F D) (at : Instants) → agent_at ev ≡ some at → ev ≡ agent at
agent_at-eq (agent at') at h = ap agent cc
agent_at-eq (write c) at h = cc
agent_at-eq receive at h = cc

module _ {F D M C : Type 0} ⦃f : Float F⦄ (t : DashMap (WeightedEntity F D) M)
    (ch : Channel (SignalEvent F) C) (config : SensingConfig F) where
  -- Only the agent moves its own thread.
  step_phase :
      (ev : Event F D) (s : System F D M C)
      → agent_at ev ≡ none
      → (step t ch config ev s).phase ≡ s.phase
  unfolding step
  step_phase (agent at) s h = cc
  step_phase (write c) s h = refl
  step_phase receive s h = refl

  step_agent :
      (ev : Event F D) (at : Instants) (s : System F D M C)
      → ev ≡ agent at
      → step t ch config ev s ≡ advance t ch config at s.phase s.sensor
  unfolding step
  step_agent ev at s h = ap (λ x. step t ch config x s) h

  step-IsTriggered :
      IsDashMap t
      → (j : ℕ) (ev : Event F D) (x : System F D M C) → KeepsTrigger j ev
      → agent_at ev ≡ none
      → IsTriggered t ch config j x.sensor.store
      → IsTriggered t ch config j (step t ch config ev x).sensor.store
  unfolding step
  step-IsTriggered laws j (agent at) x keeps other p = cc
  step-IsTriggered laws j (write c) x keeps other p =
      write_trigger t ch config laws j c x.sensor.store keeps p
  step-IsTriggered laws j receive x keeps other p = p

  step-Pending :
      IsDashMap t
      → (j : ℕ) (ev : Event F D) (x : System F D M C) → KeepsTrigger j ev
      → agent_at ev ≡ none
      → Pending t ch config j x.phase x.sensor.store
      → Pending t ch config j (step t ch config ev x).phase (step t ch config ev x).sensor.store
  unfolding step
  step-Pending laws j (agent at) x keeps other p = cc
  step-Pending laws j (write c) x keeps other p =
      write-Pending t ch config laws j c x.phase x.sensor.store keeps p
  step-Pending laws j receive x keeps other p = p

  module _ (events : ℕ → Event F D) (s : System F D M C) where
    abbrev state : ℕ → System F D M C
    state = state_at t ch config events s

    state-suc : (n : ℕ) → state (suc n) ≡ step t ch config (events n) (state n)
    unfolding state_at
    state-suc n = refl

    -- The next access of the agent finds its thread as it is now, and what the others keep.
    next_agent :
        (P : System F D M C → Type 0)
        → ((n : ℕ) (x : System F D M C)
            → agent_at (events n) ≡ none
            → P x
            → P (step t ch config (events n) x))
        → (k n : ℕ) (at : Instants) → events (k + n) ≡ agent at
        → P (state n)
        → (m : ℕ) × (at' : Instants) × (n ≤ m)
          × (events m ≡ agent at')
          × ((state m).phase ≡ (state n).phase)
          × P (state m)
    unfolding state_at
    next_agent P keeps zero n at h p =
        let e : 0 + n ≡ n = omega arith in
        (n, at, omega arith, subst (λ i. events i ≡ agent at) e h, refl, p)
    next_agent P keeps (suc k) n at h p = elim (Option-cases (agent_at (events n))) [
      | inr (at', mine) ↦ (n, at', omega arith, agent_at-eq (events n) at' mine, refl, p)
      | inl other ↦
          let e : suc k + n ≡ k + suc n = omega arith in
          let (m, at', le, mine, same, q) =
            next_agent P keeps k (suc n) at (subst (λ i. events i ≡ agent at) e h)
              (keeps n (state n) other p) in
          (m, at', omega arith, mine, same ∙ step_phase (events n) (state n) other, q)
    ]

    state_next :
        (m : ℕ) (at : Instants)
        → events m ≡ agent at
        → state (suc m) ≡ advance t ch config at (state m).phase (state m).sensor
    state_next m at mine = state-suc m ∙ step_agent (events m) at (state m) mine

    -- At some time from `n` on the agent offers the trigger of `j`.
    abbrev pub IsOffered : ℕ → ℕ → Type 0
    IsOffered j n =
        (m : ℕ) × (at : Instants) × (n ≤ m)
        × (events m ≡ agent at)
        × Offers t ch config j at (state m).sensor.tx (state (suc m)).sensor.tx

    sooner : (j n m : ℕ) → n ≤ m → IsOffered j m → IsOffered j n
    sooner j n m le (i, at, le', mine, offer) = (i, at, omega arith, mine, offer)

    -- The agent offers what it is bound to offer.
    Pending-IsOffered :
        IsDashMap t
        → IsFair events
        → (j : ℕ) → ((n : ℕ) → KeepsTrigger j (events n))
        → (c n : ℕ) → cost (state n).phase < c
        → Pending t ch config j (state n).phase (state n).sensor.store
        → IsOffered j n
    Pending-IsOffered laws fair j keeps zero n small p = absurd (omega arith)
    Pending-IsOffered laws fair j keeps (suc c) n small p =
        let (k, at, h) = fair n in
        let (m, at', le, mine, same, here) =
          next_agent (λ x. Pending t ch config j x.phase x.sensor.store)
            (λ i x other q. step-Pending laws j (events i) x (keeps i) other q) k n at h p in
        let next = state_next m at' mine in
        elim (Pending-step t ch config j at' (state m).phase (state m).sensor here) [
          | inl offer ↦ (m, at', le, mine, ap (λ (x : System F D M C). x.sensor.tx) next ∙ offer)
          | inr (still, less) ↦
              let phase = ap (λ (x : System F D M C). x.phase) next in
              let fewer = ap cost phase in
              let as_before = ap cost same in
              sooner j n (suc m) (omega arith) (
                Pending-IsOffered laws fair j keeps c (suc m) (omega arith)
                  (subst (λ x. Pending t ch config j x.phase x.sensor.store) (sym next) still))
        ]

    triggered-IsOffered :
        IsDashMap t
        → IsFair events
        → (j : ℕ) → ((n : ℕ) → KeepsTrigger j (events n))
        → (c n : ℕ) → cost (state n).phase < c
        → IsTriggered t ch config j (state n).sensor.store
        → IsOffered j n
    triggered-IsOffered laws fair j keeps zero n small p = absurd (omega arith)
    triggered-IsOffered laws fair j keeps (suc c) n small p =
        let (k, at, h) = fair n in
        let (m, at', le, mine, same, there) =
          next_agent (λ x. IsTriggered t ch config j x.sensor.store)
            (λ i x other q. step-IsTriggered laws j (events i) x (keeps i) other q) k n at h p in
        let next = state_next m at' mine in
        let phase = ap (λ (x : System F D M C). x.phase) next in
        let store = ap (λ (x : System F D M C). x.sensor.store) next in
        elim (trigger_step t ch config laws j at' (state m).phase (state m).sensor there) [
          | inl bound ↦ sooner j n (suc m) (omega arith) (
              Pending-IsOffered laws fair j keeps (suc (cost (state (suc m)).phase)) (suc m)
                (omega arith)
                (subst (λ x. Pending t ch config j x.phase x.sensor.store) (sym next) bound))
          | inr (still, less) ↦
              let fewer = ap cost phase in
              let as_before = ap cost same in
              sooner j n (suc m) (omega arith) (
                triggered-IsOffered laws fair j keeps c (suc m) (omega arith)
                  (subst (IsTriggered t ch config j) (sym store) still))
        ]

    -- If the agent is scheduled again and again and no call takes the trigger of entity `j` back, then
    -- whenever the entity stands in the store with its trigger set, the agent later offers a
    -- CausalTrigger of it to the channel, however its accesses interleave with those of the feeds
    -- and of the receiver.
    pub trigger-IsOffered :
        IsDashMap t
        → IsFair events
        → (j : ℕ) → ((n : ℕ) → KeepsTrigger j (events n))
        → (n : ℕ) → IsTriggered t ch config j (state n).sensor.store
        → IsOffered j n
    trigger-IsOffered laws fair j keeps n p =
        triggered-IsOffered laws fair j keeps (suc (cost (state n).phase)) n (omega arith) p
