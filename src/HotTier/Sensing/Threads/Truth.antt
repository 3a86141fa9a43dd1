-- ===== src/HotTier/Sensing/Threads/Truth.antt =====
-- Endless schedules of `SensingAgent` (crates/hot-tier/src/lib.rs) and the other threads: every
-- signal that the receiver is handed is true.
use atlas_hpc.Base.{ℕ, zero, suc, ◌<◌, ◌≡◌, subst, some, nat_eq, In, In-append, arith, inl, inr}
use atlas_hpc.Base.Dict
use atlas_hpc.Base.Dict.{Dict}
use atlas_hpc.Base.Float.{Float}
use atlas_hpc.HotTier.Channel.{Channel, IsChannel}
use atlas_hpc.HotTier.DashMap.{DashMap, IsDashMap}
use atlas_hpc.Types.Entity.{WeightedEntity}
use atlas_hpc.Types.Signal.{SignalEvent}
use atlas_hpc.HotTier.Sensing.{SensingConfig}
use atlas_hpc.HotTier.Sensing.Threads.{System, Event, new, spawn, handed, state_at, inbox, to_list}
use atlas_hpc.HotTier.Sensing.Threads.Genuine.{IsGenuine, IsTrue}
use atlas_hpc.HotTier.Sensing.Threads.Steps.{
  In_to_list, StoodBy, step_True, IsGenuine-mono, IsTrue-mono,
}

module _ {F D M C : Type 0} ⦃f : Float F⦄ (t : DashMap (WeightedEntity F D) M)
    (ch : Channel (SignalEvent F) C) (config : SensingConfig F) (b : IsChannel ch) where
  module _ (events : ℕ → Event F D) (s : System F D M C) where
    abbrev state : ℕ → System F D M C
    state = state_at t ch config events s

    abbrev Before : ℕ → WeightedEntity F D → Type 0
    Before = StoodBy t ch config events s

    later-Before : (n : ℕ) (e : WeightedEntity F D) → Before n e → Before (suc n) e
    later-Before n e (i, k, le, found) = (i, k, omega arith, found)

    state_True :
        IsDashMap t
        → IsTrue t ch config b (Before 0) s
        → (n : ℕ)
        → IsTrue t ch config b (Before n) (state n)
          × ((x : SignalEvent F)
              → In x (inbox t ch config events s n)
              → IsGenuine config (Before n) x)
    unfolding state_at inbox
    state_True laws start zero = (start, λ x i. absurd i)
    state_True laws start (suc n) =
        let (now, got) = state_True laws start n in
        let more = later-Before n in
        let now' = IsTrue-mono t ch config b (Before n) (Before (suc n)) more (state n) now in
        let stand =
          λ (k : ℕ) (e : WeightedEntity F D) (found : t.get k (state n).sensor.store ≡ some e).
            later-Before n e (n, k, omega arith, found) in
        let (next, out) =
          step_True t ch config b laws (Before (suc n)) (events n) (state n) stand now' in
        let came = handed t ch config (events n) (state n) in
        (
          next,
          λ x i. elim ((In-append x (inbox t ch config events s n) (to_list came)).0 i) [
            | inl old ↦ IsGenuine-mono t ch config b (Before n) (Before (suc n)) more x (got x old)
            | inr latest ↦ out x (In_to_list came x latest)
          ],
        )

  -- If the channel has room for a signal, then whatever the feeds write and however the threads
  -- interleave, each signal that the receiver of a newly spawned agent is handed is true: a
  -- CausalTrigger is of an entity that stood in the store with its trigger set, and a WeightSpike is
  -- of an entity that stood there with the new weight, and its delta, which reaches the threshold,
  -- is the distance of that weight from itself or from a weight with which the entity stood there
  -- too.
  pub signals-IsGenuine :
      IsDashMap t
      → 0 < config.channel_capacity
      → (events : ℕ → Event F D) (store : M) (n : ℕ) (x : SignalEvent F)
      → In x (inbox t ch config events (spawn t ch config store) n)
      → IsGenuine config (StoodBy t ch config events (spawn t ch config store) n) x
  unfolding spawn new Dict.lookup
  signals-IsGenuine laws holds events store n x i =
      let empty = b.queued-bounded config.channel_capacity holds in
      let start : IsTrue t ch config b (StoodBy t ch config events (spawn t ch config store) 0)
          (spawn t ch config store) =
        record {
          queue = λ y j. absurd (subst (In y) empty j);
          hand = λ e j. absurd j;
          armed = tt;
          weights = λ id w found. cc;
        } in
      (state_True events (spawn t ch config store) laws start n).1 x i
