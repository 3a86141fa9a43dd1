-- ===== src/HotTier/Sensing/Threads/Prompt.antt =====
-- Schedules in which the receiver of `SensingAgent` (crates/hot-tier/src/lib.rs) keeps up with the
-- agent: the channel is never full when the agent goes.
use atlas_hpc.Base.{
  ℕ, zero, suc, ◌+◌, ◌-◌, ◌≤◌, ◌<◌, ◌≡◌, refl, sym, ◌∙◌, ap, subst, [], ◌∷◌, take, length,
  length-append, List-cases, arith, ◌⊎◌, inl, inr,
}
use atlas_hpc.Base.Float.{Float}
use atlas_hpc.HotTier.Channel.{Channel, IsChannel}
use atlas_hpc.HotTier.DashMap.{DashMap}
use atlas_hpc.Types.Entity.{WeightedEntity}
use atlas_hpc.Types.Signal.{SignalEvent}
use atlas_hpc.HotTier.Sensing.{SensingConfig, Instants}
use atlas_hpc.HotTier.Sensing.Threads.{
  System, Event, agent, write, receive, spawn, new, step, state_at,
}
use atlas_hpc.HotTier.Sensing.Threads.Triggers.{IsFair}
use atlas_hpc.HotTier.Sensing.Threads.Received.{IsDrained, advance_tx, receive_or, take_some}

abbrev pub lag_after : {F D : Type 0} → Event F D → ℕ → ℕ
lag_after (agent at) k = suc k
lag_after (write c) k = k
lag_after receive k = k - 1

-- By how many accesses the receiver is behind the agent.
unfoldable pub lag : {F D : Type 0} → (ℕ → Event F D) → ℕ → ℕ
lag events zero = 0
lag events (suc n) = lag_after (events n) (lag events n)

-- The receiver is never as many accesses behind as the channel has slots.
abbrev pub IsPrompt : {F D : Type 0} → ℕ → (ℕ → Event F D) → Type 0
IsPrompt capacity events = (n : ℕ) → lag events n < capacity

-- Only the receiver catches up.
lag_grows : {F D : Type 0} (ev : Event F D) (k : ℕ) → (ev ≡ receive → ⊥) → k ≤ lag_after ev k
lag_grows (agent at) k other = omega arith
lag_grows (write c) k other = omega arith
lag_grows receive k other = absurd (other refl)

module _ {F D : Type 0} (events : ℕ → Event F D) where
  -- Until the agent goes again, the receiver goes, or is further behind then.
  next_lag :
      (k n : ℕ) (at : Instants)
      → events (k + n) ≡ agent at
      → ((m : ℕ) × (n ≤ m) × (events m ≡ receive))
        ⊎ ((m : ℕ) × (n ≤ m) × (lag events n < lag events m))
  unfolding lag
  next_lag zero n at h =
      let e : 0 + n ≡ n = omega arith in
      let mine : events n ≡ agent at = subst (λ i. events i ≡ agent at) e h in
      let more = ap (λ ev. lag_after ev (lag events n)) mine in
      inr (suc n, omega arith, omega arith)
  next_lag (suc k) n at h = elim (receive_or (events n)) [
    | inl mine ↦ inl (n, omega arith, mine)
    | inr other ↦
        let e : suc k + n ≡ k + suc n = omega arith in
        let grows = lag_grows (events n) (lag events n) other in
        elim (next_lag k (suc n) at (subst (λ i. events i ≡ agent at) e h)) [
          | inl (m, le, mine) ↦ inl (m, omega arith, mine)
          | inr (m, le, less) ↦ inr (m, omega arith, omega arith)
        ]
  ]

  next_receive :
      (capacity : ℕ)
      → IsFair events
      → IsPrompt capacity events
      → (c n : ℕ) → capacity ≤ lag events n + c
      → (m : ℕ) × (n ≤ m) × (events m ≡ receive)
  next_receive capacity fair prompt zero n near = let below = prompt n in absurd (omega arith)
  next_receive capacity fair prompt (suc c) n near =
      let (k, at, h) = fair n in
      elim (next_lag k n at h) [
        | inl found ↦ found
        | inr (m, le, less) ↦
            let (i, le', mine) = next_receive capacity fair prompt c m (omega arith) in
            (i, omega arith, mine)
      ]

  -- A receiver that keeps up with an agent that goes on goes on too.
  pub prompt-IsDrained :
      (capacity : ℕ) → IsFair events → IsPrompt capacity events → IsDrained events
  prompt-IsDrained capacity fair prompt n =
      let (m, le, mine) = next_receive capacity fair prompt capacity n (omega arith) in
      let e : m ≡ m - n + n = omega arith in (m - n, subst (λ i. events i ≡ receive) e mine)

length-take : {S : Type 0} (n : ℕ) (x : S) → length (take n (x ∷ [])) ≡ n - (n - 1)
length-take zero x = omega arith
length-take (suc n) x = ap length (take_some (suc n) x (omega arith)) ∙ omega arith

module _ {F D M C : Type 0} ⦃f : Float F⦄ (t : DashMap (WeightedEntity F D) M)
    (ch : Channel (SignalEvent F) C) (config : SensingConfig F) (b : IsChannel ch) where
  -- The queue is as long as the receiver is behind, at most, and the rest of the channel is free.
  abbrev Fits : ℕ → ℕ → C → Type 0
  Fits capacity k c = (length (b.queued c) ≤ k) × (b.room c + length (b.queued c) ≡ capacity)

  send-Fits :
      (capacity k : ℕ) (x : SignalEvent F) (c : C)
      → Fits capacity k c
      → Fits capacity (suc k) (ch.sender.try_send x c)
  send-Fits capacity k x c h =
      let grown =
        ap length (b.queued-send x c)
        ∙ length-append (b.queued c) (take (b.room c) (x ∷ []))
        ∙ ap (λ n. length (b.queued c) + n) (length-take (b.room c) x) in
      let less = b.room-send x c in (omega arith, omega arith)

  recv-Fits : (capacity k : ℕ) (c : C) → Fits capacity k c → Fits capacity (k - 1) (ch.recv c).1
  recv-Fits capacity k c h = elim (List-cases (b.queued c)) [
    | inl none_left ↦
        let same = ap (λ p. p.1) (b.recv_none c none_left) in
        let empty = ap length none_left in
        subst (Fits capacity (k - 1)) (sym same) (omega arith, h.1)
    | inr (x, xs, e) ↦
        let r = b.recv_some x xs c e in
        let before = ap length e in
        let after = ap length r.1 in let room = r.2 in (omega arith, omega arith)
  ]

  step-Fits :
      (capacity k : ℕ) (ev : Event F D) (s : System F D M C)
      → Fits capacity k s.sensor.tx
      → Fits capacity (lag_after ev k) (step t ch config ev s).sensor.tx
  unfolding step
  step-Fits capacity k (agent at) s h = elim (advance_tx t ch config at s.phase s.sensor) [
    | inl same ↦ subst (Fits capacity (suc k)) (sym same) (omega arith, h.1)
    | inr (x, sent) ↦
        subst (Fits capacity (suc k)) (sym sent) (send-Fits capacity k x s.sensor.tx h)
  ]
  step-Fits capacity k (write c) s h = h
  step-Fits capacity k receive s h = recv-Fits capacity k s.sensor.tx h

  state-Fits :
      (events : ℕ → Event F D) (store : M)
      → 0 < config.channel_capacity
      → (n : ℕ)
      → Fits config.channel_capacity
          (lag events n)
          (state_at t ch config events (spawn t ch config store) n).sensor.tx
  unfolding state_at spawn new lag
  state-Fits events store pos zero =
      let empty = ap length (b.queued-bounded config.channel_capacity pos) in
      let room = b.room-bounded config.channel_capacity pos in (omega arith, omega arith)
  state-Fits events store pos (suc n) =
      step-Fits config.channel_capacity (lag events n) (events n)
        (state_at t ch config events (spawn t ch config store) n) (state-Fits events store pos n)

  -- The channel is never full while the receiver keeps up.
  pub prompt_room :
      (events : ℕ → Event F D) (store : M)
      → IsPrompt config.channel_capacity events
      → (n : ℕ) → 0 < b.room (state_at t ch config events (spawn t ch config store) n).sensor.tx
  prompt_room events store prompt n =
      let below = prompt n in
      let fits = state-Fits events store (omega arith) n in
      let short = fits.0 in let whole = fits.1 in omega arith
