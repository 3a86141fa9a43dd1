-- ===== src/HotTier/Sensing/Threads.antt =====
-- crates/hot-tier/src/lib.rs: `SensingAgent::new`, `spawn` and the loop of `run`, cut into the
-- accesses to what other threads share: the store, which the feeds write, and the channel, which
-- the receiver empties. A schedule says which thread goes next. `iter` visits the keys that were
-- there when it began, each read when its turn comes; what is put in meanwhile is left for the next
-- sweep. The sleep, the pinning to a core and the log lines are left out.
pub mod Solo
pub mod Triggers
pub mod Offers
pub mod Offered
pub mod Received
pub mod Prompt
pub mod Genuine
pub mod Steps
pub mod Truth
use mathlib.Core.Option
use atlas_hpc.Base.{
  ℕ, zero, suc, true, false, Option, none, some, List, [], ◌∷◌, ◌++◌, map, nat_eq, if◌then◌else◌,
}
use atlas_hpc.Base.Dict
use atlas_hpc.Base.Dict.{Dict}
use atlas_hpc.Base.Float.{Float}
use atlas_hpc.HotTier.Channel.{Channel}
use atlas_hpc.HotTier.DashMap.{DashMap}
use atlas_hpc.HotTier.Store.{set_causal_trigger}
use atlas_hpc.HotTier.Store.Laws.{Call, perform}
use atlas_hpc.Types.Entity.{WeightedEntity}
use atlas_hpc.Types.Signal.{SignalEvent, causal_trigger}
use atlas_hpc.HotTier.Sensing.{SensingConfig, Instants, Sensor, check_spike}

-- The fields of the agent; the sending and the receiving end are one state of the channel.
pub record SensingAgent (F M C : Type 0) : Type 0 where
  pub store : M
  pub tx : C
  pub config : SensingConfig F

-- `SensingAgent::new`: the agent, and the receiving end of its new channel.
unfoldable pub new :
    {F M C : Type 0} → Channel (SignalEvent F) C → M → SensingConfig F → SensingAgent F M C × C
new ch store config =
    let c = ch.bounded config.channel_capacity in
    (record { store = store; tx = c; config = config }, c)

abbrev pub to_list : {S : Type 0} → Option S → List S
to_list none = []
to_list (some x) = x ∷ []

-- Where the agent's thread stands.
pub data Phase (F D : Type 0) : Type 0 where
  -- At the head of the loop.
  waiting : Phase F D
  -- In the loop over `iter`, with these keys left, and the snapshots so far.
  collecting : List ℕ → List (WeightedEntity F D) → Phase F D
  -- In the `for` loop, with these entities left.
  checking : List (WeightedEntity F D) → Phase F D
  -- The trigger of the entity is reset, and its signal not sent yet.
  notifying : WeightedEntity F D → List (WeightedEntity F D) → Phase F D
  -- Before the spike check of the entity.
  weighing : WeightedEntity F D → List (WeightedEntity F D) → Phase F D

-- What the threads share, with the agent's own state.
pub record System (F D M C : Type 0) : Type 0 where
  pub sensor : Sensor F M C
  pub phase : Phase F D

-- One access of one thread: of the agent, with its clock, of a feed, or of the receiver.
pub data Event (F D : Type 0) : Type 0 where
  agent : Instants → Event F D
  write : Call F D → Event F D
  receive : Event F D

module _ {F D M C : Type 0} ⦃f : Float F⦄ (t : DashMap (WeightedEntity F D) M)
    (ch : Channel (SignalEvent F) C) (config : SensingConfig F) where
  -- `SensingAgent::spawn`: the thread is at the head of the loop of `run`, and no weight is known.
  unfoldable pub spawn : M → System F D M C
  unfolding new
  spawn store =
      let made = new ch store config in
      record {
        sensor = record { store = made.0.store; prev_weights = []; tx = made.0.tx; idle = true };
        phase = waiting;
      }

  -- The next access of the agent.
  unfoldable pub advance : Instants → Phase F D → Sensor F M C → System F D M C
  advance at waiting s = record {
    sensor = record s { idle = true };
    phase = collecting (map (λ p. p.0) (t.entries s.store)) [];
  }
  advance at (collecting [] v) s = record { sensor = s; phase = checking v }
  advance at (collecting (k ∷ ks) v) s = record {
    sensor = s;
    phase = collecting ks (v ++ to_list (t.get k s.store));
  }
  advance at (checking []) s = record { sensor = s; phase = waiting }
  advance at (checking (e ∷ es)) s =
      if e.causal_trigger_bit
      then record {
        sensor = record s { store = set_causal_trigger t at.reset_at e.entity_id false s.store };
        phase = notifying e es;
      }
      else record { sensor = s; phase = weighing e es }
  advance at (notifying e es) s = record {
    sensor = record s {
      tx = ch.sender.try_send (causal_trigger e.entity_id at.trigger_at) s.tx;
      idle = false;
    };
    phase = weighing e es;
  }
  advance at (weighing e es) s =
      let checked = check_spike t ch.sender config at e s in
      record {
        sensor = record checked {
          prev_weights = Dict.insert e.entity_id e.importance_weight checked.prev_weights;
        };
        phase = checking es;
      }

  unfoldable pub step : Event F D → System F D M C → System F D M C
  step (agent at) s = advance at s.phase s.sensor
  step (write c) s = record {
    sensor = record s.sensor { store = perform t c s.sensor.store };
    phase = s.phase;
  }
  step receive s = record {
    sensor = record s.sensor { tx = (ch.recv s.sensor.tx).1 };
    phase = s.phase;
  }

  -- What the receiver is handed by one access.
  unfoldable pub handed : Event F D → System F D M C → Option (SignalEvent F)
  handed (agent at) s = none
  handed (write c) s = none
  handed receive s = (ch.recv s.sensor.tx).0

  -- The system after the first `n` accesses of an endless schedule.
  unfoldable pub state_at : (ℕ → Event F D) → System F D M C → ℕ → System F D M C
  state_at events s zero = s
  state_at events s (suc n) = step (events n) (state_at events s n)

  -- The signals that the receiver was handed by then, in order.
  unfoldable pub inbox : (ℕ → Event F D) → System F D M C → ℕ → List (SignalEvent F)
  inbox events s zero = []
  inbox events s (suc n) = inbox events s n ++ to_list (handed (events n) (state_at events s n))

  -- A finite schedule, one access after the other.
  unfoldable pub run_events : List (Event F D) → System F D M C → System F D M C
  run_events [] s = s
  run_events (ev ∷ evs) s = run_events evs (step ev s)
