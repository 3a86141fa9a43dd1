-- ===== src/Intelligence/Cache/Hits.antt =====
-- `PrefixCache` (crates/intelligence/src/cache.rs) read through `get_related`.
use atlas_hpc.Base.{
  ℕ, ◌≡◌, ◌↔◌, true, false, some, List, ◌==◌, nat_eq, if◌then◌else◌, arith, Option-cases, inl, inr,
}
use atlas_hpc.HotTier.DashMap.{DashMap, IsDashMap}
use atlas_hpc.Types.Label.{LabelId}
use atlas_hpc.Intelligence.Cache.{CachedReasoning, insert, contains, get_related}

module _ {M : Type 0} (t : DashMap CachedReasoning M) (laws : IsDashMap t) where
  -- What `contains` and `get_related` find after `PrefixCache::insert`.
  pub insert_read :
      (now k : ℕ) (related : List ℕ) (ls : List LabelId) (m : M) (j : ℕ)
      → get_related t j (insert t now k related ls m)
        ≡ (if k == j then some related else get_related t j m)
  unfolding get_related insert
  insert_read now k related ls m j = ground (
    arith,
    laws.get-insert k
        (record {
          entity_id = k;
          related_entities = related;
          label_set = ls;
          inserted_ns = now;
          dirty = false;
        })
        m j,
  )

  -- A hit is an entity with a related set.
  pub hit_iff :
      (m : M) (j : ℕ)
      → (contains t j m ≡ true) ↔ ((related : List ℕ) × (get_related t j m ≡ some related))
  unfolding get_related contains
  hit_iff m j = elim (Option-cases (t.get j m)) [
    | inl gone ↦ (λ h. ground arith, λ (related, h). ground arith)
    | inr (e, there) ↦ (λ h. (e.related_entities, ground arith), λ (related, h). ground arith)
  ]
