-- ===== src/Lib.antt =====
-- Verification of Atlas-Finance, a market data pipeline in three tiers.
--
-- The hot tier keeps a weighted entity for each id in a concurrent map, which feeds write and an
-- agent sweeps for triggers and weight spikes. The signals go through a bounded channel to the
-- reasoning agent, which answers each from a prefix cache or by spreading activation in the causal
-- graph of the warm tier, and lets the graph look for correlated entities after a spike.
--
-- Files, and the code they are about:
--   Base          lists, association lists for `HashMap`, results of code that may panic, floats
--   Types         crates/atlas-types/src/lib.rs: entities, signals, labels, temporal links
--   HotTier       crates/hot-tier/src/lib.rs: `HotStore` (Store), `SensingAgent` (Sensing: a
--                 sweep, Sensing/Threads: beside other threads), `SoftwareFeedAdapter`
--                 (Feed/Software); crates/hot-tier/src/binance.rs: `BinanceFeedAdapter`
--                 (Feed/Binance)
--   WarmTier      crates/warm-tier/src/lib.rs: `LabelStore`, the locked state of `CausalGraph`
--                 (Graph), `spreading_activation` (Activation), `pearson_with_pvalue` (Stats),
--                 `materialize_temporal_link` (Materialize)
--   Intelligence  crates/intelligence/src/cache.rs: `PrefixCache` (Cache);
--                 crates/intelligence/src/agent.rs: `ReasoningAgent` (Agent, and
--                 Agent/Llm for `query_local_llm`);
--                 crates/intelligence/src/orchestrator.rs: `Orchestrator` (Orchestrator);
--                 crates/intelligence/src/offload.rs: `SoftwareNvmeAdapter` (Offload);
--                 crates/intelligence/src/tee.rs: `SoftwareTeeGuard` (Tee)
--   Harness       src/main.rs: seeding of store and graph, synthetic feed, API handler,
--                 demonstrations at start-up;
--                 crates/intelligence/src/orchestrator.rs: `seed_entities`
--   Tests         runs on concrete inputs
--
-- Conventions. A definition has the name of the function that it models; a method takes the
-- state last and returns the new one. A `u64`, `u32` or `usize` is a native number, a `HashMap`
-- a list of keys and values, a `HashSet` a list without repetition. The map of `dashmap`, the
-- channel of `crossbeam`, the websocket, the HTTP client, `std::fs`, AES-GCM and the JSON of
-- `serde_json` are interfaces, the ones that a theorem relies on with their documented behaviour
-- as laws; Tests gives an instance of each. `f32` and `f64` are two types with an interface of
-- their operations and no laws: a theorem that needs one takes it as a hypothesis. A clock
-- reading, a random draw and the query to the language model, which may panic, are arguments. A
-- panic is a result. Counters of the graph are taken to stay below 2^64.
--
-- Fuel. The `while` loop of `traverse_all` has a round for each node of the arena, and that of
-- `spreading_activation` one for each label that an entity carries, and one more: the theorems
-- on them show that this is enough. The stream of the Binance adapter need not end: `run` takes
-- a number of polls, and says whether it has returned by then.
--
-- Concurrency. `materialize_temporal_link` takes its locks one after the other and reads a state
-- of its own at each, so whatever other threads write in between is covered; the reasoning agent
-- takes the states of the graph for each signal likewise. The loop of the sensing agent is cut
-- into its accesses to the store and to the channel (`advance`), and a schedule, an endless
-- sequence of events, lets the agent, the feeds and the receiver go in any order; the feeds are
-- any calls of the store. That the agent or the receiver goes on, or that the receiver keeps up,
-- is a hypothesis on the schedule (`IsFair`, `IsDrained`, `IsPrompt`). Only the receiver touches
-- the cache, so the orchestrator is the reasoning agent over what a schedule hands out. Each
-- operation of the store, of the channel and of the cache is one step. The visit of the store by
-- `iter` is not: it takes the keys that are there when it begins, and reads each when its turn
-- comes; a key that is put in meanwhile is left to the next sweep, where the shards of the map
-- may also show it in this one.
--
-- Not modelled: pinning and sleep of threads, the web server, the timer and the printed summary
-- of main, logging, and the benchmarks.
pub mod Base
pub mod Types
pub mod HotTier
pub mod WarmTier
pub mod Intelligence
pub mod Harness
pub mod Tests
