-- ===== src/Harness/Seeds.antt =====
-- Which entities the seeded store of src/main.rs and of `seed_entities`
-- (crates/intelligence/src/orchestrator.rs) has.
use atlas_hpc.Base.{
  ℕ, zero, suc, ◌+◌, ◌≤◌, ◌≡◌, ◌∙◌, ap, ◌&&◌, none, some, [], ◌==◌, nat_eq, nat_beq_iff, ltb, leb,
  if◌then◌else◌, arith, Bool-cases, inl, inr,
}
use atlas_hpc.Base.Dict
use atlas_hpc.Base.Float.{Float}
use atlas_hpc.HotTier.DashMap.{DashMap, IsDashMap, len-eq, len-insert}
use atlas_hpc.HotTier.Store
use atlas_hpc.Types.Entity.{WeightedEntity, new}
use atlas_hpc.Harness.{seeded, seed_from, seed_entities}

module _ {F D M : Type 0} ⦃f : Float F⦄ ⦃d : Float D⦄ (t : DashMap (WeightedEntity F D) M)
    (laws : IsDashMap t) where
  pub seed_from_get :
      (i n : ℕ) (m : M) (j : ℕ)
      → t.get j (seed_from t i n m)
        ≡ (if leb i j && ltb j (i + n) then some (seeded t j) else t.get j m)
  unfolding seed_from Store.insert new
  seed_from_get i zero m j = ground arith
  seed_from_get i (suc n) m j =
      let rest = seed_from_get (suc i) n (Store.insert t (seeded t i) m).0 j in
      let read = laws.get-insert i (seeded t i) m j in
      elim (Bool-cases (i == j)) [
        | inl same ↦
            let e : i ≡ j = (nat_beq_iff i j).0 same in
            ground (arith, ap (λ k. some (seeded t k)) e)
        | inr other ↦ ground (arith, nat_beq_iff i j)
      ]

  pub seed_from-len :
      (i n : ℕ) (m : M)
      → ((j : ℕ) → i ≤ j → t.get j m ≡ none)
      → Store.len t (seed_from t i n m) ≡ Store.len t m + n
  unfolding seed_from Store.insert Store.len new
  seed_from-len i zero m h = omega arith
  seed_from-len i (suc n) m h =
      let rest = seed_from-len (suc i) n (t.insert i (seeded t i) m) (λ j le.
        ground (arith, laws.get-insert i (seeded t i) m j, h j (omega arith), nat_beq_iff i j)) in
      ground (arith, len-insert t laws i (seeded t i) m, h i (omega arith))

  -- `seed_entities` fills an empty store with `n` entities, whose ids are 0 to n - 1, each with its
  -- own price.
  pub seed_entities_lem :
      (n : ℕ)
      → (Store.len t (seed_entities t n t.empty) ≡ n)
        × ((j : ℕ)
            → Store.get t j (seed_entities t n t.empty)
              ≡ (if ltb j n then some (seeded t j) else none))
  unfolding seed_entities Store.get Store.len Dict.lookup
  seed_entities_lem n = (
    seed_from-len 0 n t.empty (λ j le. laws.get-empty j)
        ∙ omega (arith, len-eq t laws t.empty [] tt (λ j. laws.get-empty j)),
    λ j. ground (arith, seed_from_get 0 n t.empty j, laws.get-empty j),
  )
