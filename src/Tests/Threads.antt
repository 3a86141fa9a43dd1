-- ===== src/Tests/Threads.antt =====
-- `SensingAgent` beside a feed and a receiver, each of the three in turn, and the synthetic feed.
use mathlib.Core.Option
use atlas_hpc.Base.{
  ℕ, ◌+◌, ◌-◌, ◌%◌, ◌≤◌, zero, suc, ◌≡◌, refl, ap, Bool, true, false, Option, none, some, map, take,
  ◌++◌, inl, List, [], ◌∷◌, ◌==◌, nat_eq, nat_beq_iff, In, arith,
}
use atlas_hpc.Base.Dict
use atlas_hpc.Base.Fixed.{ℤ, pos, fixed}
use atlas_hpc.HotTier.DashMap.{Table, table_laws}
use atlas_hpc.HotTier.Channel.{Channel, list_channel, list_sender-IsBounded, list_channel-IsChannel}
use atlas_hpc.HotTier.Sensing.{default_config, check_spike}
use atlas_hpc.HotTier.Sensing.Detect.{detected, is_empty}
use atlas_hpc.HotTier.Sensing.Threads.{
  Event, agent, write, receive, System, waiting, spawn, new, advance, step, handed, state_at, inbox,
  run_events,
}
use atlas_hpc.HotTier.Sensing.Threads.Triggers.{IsFair, KeepsTrigger, IsTriggered}
use atlas_hpc.HotTier.Sensing.Threads.Received.{IsDrained, IsDelivered, trigger-IsDelivered}
use atlas_hpc.HotTier.Sensing.Threads.Prompt.{IsPrompt, lag, lag_after}
use atlas_hpc.HotTier.Sensing.Threads.Genuine.{IsGenuine}
use atlas_hpc.HotTier.Sensing.Threads.Truth.{signals-IsGenuine}
use atlas_hpc.HotTier.Sensing.Threads.Steps.{StoodBy}
use atlas_hpc.HotTier.Sensing.Threads.Solo.{sweep_events, alone_sends}
use atlas_hpc.HotTier.Store
use atlas_hpc.HotTier.Store.Laws.{Call, price_call, perform, view, IsKeyed}
use atlas_hpc.HotTier.Feed.Software.{xorshift}
use atlas_hpc.Harness.{Round, entity_count, synthetic_feed}
use atlas_hpc.Harness.Fed.{feed_triggers}
use atlas_hpc.Types.Entity.{WeightedEntity}
use atlas_hpc.Types.Signal.{SignalEvent, causal_trigger}
use atlas_hpc.Tests.Stores.{store_map}
use atlas_hpc.Tests.Sensors.{alarmed, instants, sensor, sensor-Keyed}

abbrev pub pipe : Channel (SignalEvent ℤ) (List (SignalEvent ℤ) × ℕ)
pipe = list_channel

-- One round: the agent, a call of the store, the receiver.
abbrev pub turn : (ℕ → Call ℤ ℤ) → Bool → Bool → ℕ → Event ℤ ℤ
turn calls true last n = agent (instants n)
turn calls false true n = write (calls n)
turn calls false false n = receive

abbrev pub cycle : (ℕ → Call ℤ ℤ) → ℕ → Event ℤ ℤ
cycle calls n = turn calls (n % 3 == 0) (n % 3 == 1) n

abbrev pub prices : ℕ → Call ℤ ℤ
prices n = price_call n 7 (pos n)

abbrev pub turns : ℕ → Event ℤ ℤ
turns = cycle prices

pub cycle-IsFair : (calls : ℕ → Call ℤ ℤ) → IsFair (cycle calls)
cycle-IsFair calls n =
    let k = (3 - n % 3) % 3 in
    let e : (k + n) % 3 ≡ 0 = omega arith in (k, instants (k + n), ground arith)

pub cycle-IsDrained : (calls : ℕ → Call ℤ ℤ) → IsDrained (cycle calls)
cycle-IsDrained calls n =
    let k = (5 - n % 3) % 3 in let e : (k + n) % 3 ≡ 2 = omega arith in (k, ground arith)

turn-KeepsTrigger : (a b : Bool) (n : ℕ) → KeepsTrigger 7 (turn prices a b n)
turn-KeepsTrigger true b n = tt
turn-KeepsTrigger false true n = tt
turn-KeepsTrigger false false n = tt

pub turns-KeepsTrigger : (n : ℕ) → KeepsTrigger 7 (turns n)
turns-KeepsTrigger n = turn-KeepsTrigger (n % 3 == 0) (n % 3 == 1) n

lag_turn :
    (calls : ℕ → Call ℤ ℤ) (a b : Bool) (n k : ℕ)
    → k ≤ 1
    → (a ≡ true → k ≡ 0)
    → lag_after (turn calls a b n) k ≤ 1
lag_turn calls true b n k h zeroed = let e = zeroed refl in omega arith
lag_turn calls false true n k h zeroed = h
lag_turn calls false false n k h zeroed = omega arith

lag-cycle :
    (calls : ℕ → Call ℤ ℤ) (n : ℕ)
    → (lag (cycle calls) n ≤ 1) × (n % 3 ≡ 0 → lag (cycle calls) n ≡ 0)
unfolding lag
lag-cycle calls zero = (omega arith, λ e. refl)
lag-cycle calls (suc n) =
    let (small, zeroed) = lag-cycle calls n in
    (
      lag_turn calls (n % 3 == 0) (n % 3 == 1) n (lag (cycle calls) n) small
          (λ e. zeroed ((nat_beq_iff (n % 3) 0).0 e)),
      λ e.
          let last : n % 3 ≡ 2 = omega arith in
          let mine : cycle calls n ≡ receive = ground arith in
          let after = ap (λ ev. lag_after ev (lag (cycle calls) n)) mine in omega arith,
    )

pub cycle-IsPrompt : (calls : ℕ → Call ℤ ℤ) → IsPrompt 8_192 (cycle calls)
cycle-IsPrompt calls n = let small = (lag-cycle calls n).0 in omega arith

abbrev pub alarmed_store : Table (WeightedEntity ℤ ℤ)
alarmed_store = store_map.insert 7 alarmed store_map.empty

abbrev begun : System ℤ ℤ (Table (WeightedEntity ℤ ℤ)) (List (SignalEvent ℤ) × ℕ)
begun = record {
  sensor = record { store = alarmed_store; prev_weights = []; tx = ([], 8); idle = true };
  phase = waiting;
}

pub alarmed-IsTriggered : IsTriggered store_map pipe default_config 7 alarmed_store
unfolding Dict.lookup Dict.insert Dict.upsert
alarmed-IsTriggered = (alarmed, refl, refl, refl)

-- The trigger is handed over by the agent's fifth access.
handed_first : inbox store_map pipe default_config turns begun 15 ≡ causal_trigger 7 212 ∷ []
unfolding inbox state_at step handed advance perform check_spike Store.set_causal_trigger
    Store.tick_price Dict.lookup Dict.insert Dict.upsert Dict.alter
handed_first = refl

trigger-IsDelivered_example :
    IsDelivered store_map pipe default_config list_channel-IsChannel turns begun 7 0
unfolding state_at Dict.insert
trigger-IsDelivered_example =
    trigger-IsDelivered store_map pipe default_config list_channel-IsChannel turns begun table_laws
      (cycle-IsFair prices) (cycle-IsDrained prices) 7 turns-KeepsTrigger 0 alarmed-IsTriggered

-- The agent's accesses alone send the trigger, and the spike is lost.
alone_sends_example :
    let after =
      run_events store_map pipe default_config
        (sweep_events instants (store_map.entries sensor.store))
        (record { sensor = sensor; phase = waiting }) in
    let signals =
      detected default_config instants 0 sensor.prev_weights
        (map (λ p. p.1) (store_map.entries sensor.store)) in
    (after.phase ≡ waiting)
    × (after.sensor.tx.0 ≡ [] ++ take 1 signals)
    × (after.sensor.idle ≡ is_empty signals)
    × ((j : ℕ)
        → ((store_map.get j sensor.store ≡ none) → store_map.get j after.sensor.store ≡ none)
          × ((e : WeightedEntity ℤ ℤ)
              → store_map.get j sensor.store ≡ some e
              → (ns : ℕ) × (store_map.get j after.sensor.store
                  ≡ some (record e { causal_trigger_bit = false; last_updated_ns = ns }))))
alone_sends_example =
    alone_sends store_map pipe default_config table_laws list_sender-IsBounded instants sensor
      sensor-Keyed

handed_trigger : In (causal_trigger 7 212) (
    inbox store_map pipe default_config turns
      (spawn store_map pipe default_config alarmed_store)
      15)
unfolding inbox state_at step handed advance perform check_spike spawn new Store.set_causal_trigger
    Store.tick_price Dict.lookup Dict.insert Dict.upsert Dict.alter
handed_trigger = inl refl

signals-IsGenuine_example :
    IsGenuine default_config
      (StoodBy store_map pipe default_config turns
        (spawn store_map pipe default_config alarmed_store)
        15)
      (causal_trigger 7 212)
signals-IsGenuine_example =
    signals-IsGenuine store_map pipe default_config list_channel-IsChannel table_laws (omega arith)
      turns alarmed_store 15 (causal_trigger 7 212) handed_trigger

-- From the state 116 the generator of the feed draws 0x1d3ae69d74, a multiple of 100, which falls to
-- entity 3700.
abbrev copper : WeightedEntity ℤ ℤ
copper = record alarmed { entity_id = 3_700; causal_trigger_bit = false }

abbrev copper_store : Table (WeightedEntity ℤ ℤ)
copper_store = store_map.insert 3_700 copper store_map.empty

abbrev pub rounds : ℕ → Round
rounds k = record { ticked_at = k; weighed_at = k; flagged_at = k }

draws_copper : xorshift 116 ≡ 0x1d3ae69d74
unfolding xorshift
draws_copper = refl

copper-IsKeyed : IsKeyed store_map (view store_map copper_store)
unfolding view Store.get Dict.lookup Dict.insert Dict.upsert
copper-IsKeyed j e p = ground (
  arith,
  nat_beq_iff j 3_700,
  ap (λ (x : Option (WeightedEntity ℤ ℤ)). Option.map (λ y. y.entity_id) x) p,
)

copper_there : Store.contains store_map (xorshift 116 % entity_count) copper_store ≡ true
unfolding xorshift Store.contains Dict.lookup Dict.insert Dict.upsert
copper_there = refl

feed_triggers_example :
    IsTriggered store_map pipe default_config
      (xorshift 116 % entity_count)
      (synthetic_feed store_map rounds 6 116 copper_store)
feed_triggers_example =
    feed_triggers store_map pipe default_config table_laws rounds 5 116 copper_store copper-IsKeyed
      copper_there (ap (λ x. x % 100) draws_copper)
