-- ===== src/Harness.antt =====
-- src/main.rs: the seeding of the store, the synthetic feed and the API handler; and
-- crates/intelligence/src/orchestrator.rs: `seed_entities`. Start-up, threads and the server are
-- left out.
pub mod Seeds
pub mod Served
pub mod Labels
pub mod Fed
pub mod Demo
pub mod Main
use mathlib.Core.Option
use atlas_hpc.Base.{
  ℕ, zero, suc, ◌+◌, ◌%◌, ◌^◌, Bool, true, Option, none, some, List, [], ◌∷◌, ltb, if◌then◌else◌,
}
use atlas_hpc.Base.Float.{Float}
use atlas_hpc.HotTier.DashMap.{DashMap}
use atlas_hpc.HotTier.Feed.Software.{xorshift}
use atlas_hpc.HotTier.Store
use atlas_hpc.Types.Entity.{WeightedEntity, new}

abbrev pub entity_count : ℕ
entity_count = 10_000

-- The fields of the JSON of `get_alpha_handler`.
pub data Alpha (F : Type 0) : Type 0 where
  -- entity_id, weight, causal_trigger, timestamp_ns
  success : ℕ → F → Bool → ℕ → Alpha F
  miss : ℕ → Alpha F

-- The clock in one round of the synthetic feed.
pub record Round : Type 0 where
  pub ticked_at : ℕ
  pub weighed_at : ℕ
  pub flagged_at : ℕ

module _ {F D M : Type 0} ⦃f : Float F⦄ ⦃d : Float D⦄ (t : DashMap (WeightedEntity F D) M) where
  -- `WeightedEntity::new(i, 100.0 + i as f64 * 0.01)`.
  abbrev pub seeded : ℕ → WeightedEntity F D
  seeded i = new i (d.add (d.lit 100 0) (d.mul (d.of_ℕ i) (d.lit 1 2)))

  -- The loop over `i..i + n`.
  unfoldable pub seed_from : ℕ → ℕ → M → M
  seed_from i zero m = m
  seed_from i (suc n) m = seed_from (suc i) n (Store.insert t (seeded i) m).0

  unfoldable pub seed_entities : ℕ → M → M
  seed_entities n m = seed_from 0 n m

  -- One round of the synthetic feed, from a new state of its generator.
  unfoldable pub synthetic_tick : Round → ℕ → M → M
  synthetic_tick now rng_state m =
      let entity_id = rng_state % entity_count in
      let ticked = Store.tick_price t now.ticked_at entity_id (d.lit 150 0) m in
      let weighed =
        (Store.update_weight t now.weighed_at entity_id (f.lit 200 0) (f.lit 9 1) (f.lit 1 1)
          ticked).0 in
      if ltb (rng_state % 100) 1
      then Store.set_causal_trigger t now.flagged_at entity_id true weighed
      else weighed

  -- The first `n` rounds of the endless loop.
  unfoldable pub synthetic_feed : (ℕ → Round) → ℕ → ℕ → M → M
  synthetic_feed now zero rng_state m = m
  synthetic_feed now (suc n) rng_state m =
      let next = xorshift rng_state in
      synthetic_feed (λ k. now (suc k)) n next (synthetic_tick (now 0) next m)

  unfoldable pub get_alpha_handler : ℕ → M → Alpha F
  get_alpha_handler entity_id m = elim (Store.get t entity_id m) [
    | none ↦ miss entity_id
    | some e ↦ success e.entity_id e.importance_weight e.causal_trigger_bit e.last_updated_ns
  ]
