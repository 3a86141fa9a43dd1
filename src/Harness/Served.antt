-- ===== src/Harness/Served.antt =====
-- What the handler of src/main.rs answers once the synthetic feed has run.
use mathlib.Core.Option
use atlas_hpc.Base.{
  ℕ, zero, suc, ◌%◌, ◌<◌, ◌≤◌, ◌≡◌, ◌∙◌, ap, sym, Bool, true, false, ◌||◌, Option, none, some, ◌==◌,
  nat_eq, nat_beq_iff, if◌then◌else◌, arith, Bool-cases, Option-cases, inl, inr,
}
use atlas_hpc.Base.Float.{Float}
use atlas_hpc.HotTier.DashMap.{DashMap, IsDashMap}
use atlas_hpc.HotTier.Feed.Software.{xorshift}
use atlas_hpc.HotTier.Store
use atlas_hpc.Types.Entity.{WeightedEntity, new, recalculate_weight}
use atlas_hpc.Harness.{
  entity_count, success, miss, Round, seed_entities, synthetic_tick, synthetic_feed,
  get_alpha_handler,
}
use atlas_hpc.Harness.Seeds.{seed_from_get}

-- What the handler answers of an entity that the store has.
pub record Reading (F : Type 0) : Type 0 where
  pub weight : F
  pub causal_trigger : Bool
  pub timestamp_ns : ℕ

module _ {F : Type 0} ⦃f : Float F⦄ where
  -- What a new entity shows.
  abbrev pub unread : Reading F
  unread = record { weight = f.lit 5 1; causal_trigger = false; timestamp_ns = 0 }

  -- What entity `j` shows after a round that draws `drawn`: of another entity, what it showed before;
  -- of this one, the weight w · 0.9 + 200 · 0.1, and a trigger if the draw is a multiple of 100.
  abbrev pub after_round : ℕ → Round → ℕ → Reading F → Reading F
  after_round j now drawn r =
      let flagged = drawn % 100 == 0 in
      if drawn % 10_000 == j
      then record {
        weight = f.add (f.mul r.weight (f.lit 9 1)) (f.mul (f.lit 200 0) (f.lit 1 1));
        causal_trigger = r.causal_trigger || flagged;
        timestamp_ns = if flagged then now.flagged_at else now.weighed_at;
      }
      else r

  -- After `n` rounds, from this state of the generator.
  abbrev pub after_rounds : ℕ → (ℕ → Round) → ℕ → ℕ → Reading F → Reading F
  after_rounds j now zero rng_state r = r
  after_rounds j now (suc n) rng_state r =
      let drawn = xorshift rng_state in
      after_rounds j (λ k. now (suc k)) n drawn (after_round j (now 0) drawn r)

module _ {F D M : Type 0} ⦃f : Float F⦄ ⦃d : Float D⦄ (t : DashMap (WeightedEntity F D) M)
    (laws : IsDashMap t) where
  -- The id and the reading of the entity that a read finds.
  abbrev shown : WeightedEntity F D → ℕ × Reading F
  shown e = (
    e.entity_id,
    record {
      weight = e.importance_weight;
      causal_trigger = e.causal_trigger_bit;
      timestamp_ns = e.last_updated_ns;
    },
  )

  abbrev shown_at : ℕ → M → Option (ℕ × Reading F)
  shown_at j m = Option.map shown (t.get j m)

  get-update_weight :
      (now k : ℕ) (surprise alpha beta : F) (m : M) (j : ℕ)
      → t.get j (Store.update_weight t now k surprise alpha beta m).0 ≡ (
          if k == j
          then Option.map (Store.reweigh now surprise alpha beta) (t.get j m)
          else t.get j m)
  unfolding Store.update_weight
  get-update_weight now k surprise alpha beta m j = elim (Option-cases (t.get k m)) [
    | inr (e, there) ↦ ground (arith, laws.get-alter k (Store.reweigh now surprise alpha beta) m j)
    | inl gone ↦ elim (Bool-cases (k == j)) [
      | inl here ↦
          let e : k ≡ j = (nat_beq_iff k j).0 here in
          let nothing : t.get j m ≡ none = sym (ap (λ i. t.get i m) e) ∙ gone in ground arith
      | inr other ↦ ground arith
    ]
  ]

  shown-tick :
      (now : Round) (drawn : ℕ) (m : M) (j : ℕ)
      → shown_at j (synthetic_tick t now drawn m)
        ≡ Option.map (λ p. (p.0, after_round j now drawn p.1)) (shown_at j m)
  unfolding synthetic_tick Store.tick_price Store.set_causal_trigger Store.reweigh
      recalculate_weight
  shown-tick now drawn m j =
      let k = drawn % entity_count in
      let price : WeightedEntity F D → WeightedEntity F D =
        λ e. record e { latest_price = d.lit 150 0; last_updated_ns = now.ticked_at } in
      let flag : WeightedEntity F D → WeightedEntity F D =
        λ e. record e { causal_trigger_bit = true; last_updated_ns = now.flagged_at } in
      let ticked = t.alter k price m in
      let weighed =
        (Store.update_weight t now.weighed_at k (f.lit 200 0) (f.lit 9 1) (f.lit 1 1) ticked).0 in
      let first = laws.get-alter k price m j in
      let second =
        get-update_weight now.weighed_at k (f.lit 200 0) (f.lit 9 1) (f.lit 1 1) ticked j in
      let third = laws.get-alter k flag weighed j in
      elim (Option-cases (t.get j m)) [
        | inl gone ↦ ground (arith, first, second, third)
        | inr (e, there) ↦ ground (arith, first, second, third)
      ]

  shown-feed :
      (now : ℕ → Round) (n rng_state : ℕ) (m : M) (j id : ℕ) (r : Reading F)
      → shown_at j m ≡ some (id, r)
      → shown_at j (synthetic_feed t now n rng_state m)
        ≡ some (id, after_rounds j now n rng_state r)
  unfolding synthetic_feed
  shown-feed now zero rng_state m j id r h = h
  shown-feed now (suc n) rng_state m j id r h =
      let drawn = xorshift rng_state in
      shown-feed (λ k. now (suc k)) n drawn (synthetic_tick t (now 0) drawn m) j id
        (after_round j (now 0) drawn r)
        (shown-tick (now 0) drawn m j
          ∙ ap (Option.map (λ p. (p.0, after_round j (now 0) drawn p.1))) h)

  hidden-feed :
      (now : ℕ → Round) (n rng_state : ℕ) (m : M) (j : ℕ)
      → shown_at j m ≡ none
      → shown_at j (synthetic_feed t now n rng_state m) ≡ none
  unfolding synthetic_feed
  hidden-feed now zero rng_state m j h = h
  hidden-feed now (suc n) rng_state m j h =
      let drawn = xorshift rng_state in
      hidden-feed (λ k. now (suc k)) n drawn (synthetic_tick t (now 0) drawn m) j
        (shown-tick (now 0) drawn m j
          ∙ ap (Option.map (λ p. (p.0, after_round j (now 0) drawn p.1))) h)

  -- What the handler answers of what the store shows.
  answer_success :
      (m : M) (j id : ℕ) (r : Reading F)
      → shown_at j m ≡ some (id, r)
      → get_alpha_handler t j m ≡ success id r.weight r.causal_trigger r.timestamp_ns
  unfolding get_alpha_handler Store.get
  answer_success m j id r h = elim (Option-cases (t.get j m)) [
    | inl gone ↦ absurd (ground arith)
    | inr (e, there) ↦
        let seen : some (shown e) ≡ some (id, r) = sym (ap (Option.map shown) there) ∙ h in
        let same : shown e ≡ (id, r) = cc in
        let found : get_alpha_handler t j m
            ≡ success e.entity_id e.importance_weight e.causal_trigger_bit e.last_updated_ns =
          ground arith in
        found ∙ ap (λ p. success p.0 p.1.weight p.1.causal_trigger p.1.timestamp_ns) same
  ]

  answer_miss : (m : M) (j : ℕ) → shown_at j m ≡ none → get_alpha_handler t j m ≡ miss j
  unfolding get_alpha_handler Store.get
  answer_miss m j h = elim (Option-cases (t.get j m)) [
    | inl gone ↦ ground arith
    | inr (e, there) ↦ absurd (ground arith)
  ]

  -- After the store is seeded with 10 000 entities and the synthetic feed has run any number of
  -- rounds, the handler answers a request for an id below 10 000 with that id, the weight 0.5 taken
  -- through the rounds that drew the id, whether one of these drew a multiple of 100, and the time of
  -- the last write of the last of them (0 if there was none). It answers every other request with a
  -- miss.
  pub alpha_answers :
      (now : ℕ → Round) (n rng_state j : ℕ)
      → let m = synthetic_feed t now n rng_state (seed_entities t entity_count t.empty) in
        let r : Reading F = after_rounds j now n rng_state unread in
        (j < 10_000 → get_alpha_handler t j m ≡ success j r.weight r.causal_trigger r.timestamp_ns)
        × (10_000 ≤ j → get_alpha_handler t j m ≡ miss j)
  unfolding seed_entities new
  alpha_answers now n rng_state j =
      let start = seed_entities t entity_count t.empty in
      let m = synthetic_feed t now n rng_state start in
      let read = seed_from_get t laws 0 entity_count t.empty j in
      (
        λ below.
            let seen : shown_at j start ≡ some (j, unread) = ground arith in
            answer_success m j j (after_rounds j now n rng_state unread)
              (shown-feed now n rng_state start j j unread seen),
        λ above.
            let nothing : shown_at j start ≡ none = ground (arith, laws.get-empty j) in
            answer_miss m j (hidden-feed now n rng_state start j nothing),
      )
