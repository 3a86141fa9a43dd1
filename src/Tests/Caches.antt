-- ===== src/Tests/Caches.antt =====
-- `PrefixCache` with two entries.
use atlas_hpc.Base.{
  ℕ, ◌≡◌, ◌≢◌, ◌↔◌, refl, nat_eq, true, false, not, Option, some, List, [], arith, nat_beq_iff, ap,
  ◌∷◌, In,
}
use mathlib.Core.Option
use atlas_hpc.Base.Dict
use atlas_hpc.Base.Dict.{is_some}
use atlas_hpc.Types.Label.{LabelId, label_eq, label}
use atlas_hpc.HotTier.DashMap.{DashMap, Table, table_map, table_laws}
use atlas_hpc.Intelligence.Cache
use atlas_hpc.Intelligence.Cache.{CachedReasoning, is_clean, is_disjoint, mark}
use atlas_hpc.Intelligence.Cache.Runs
use atlas_hpc.Intelligence.Cache.Entries.{invalidate_dirty_exact, evict_dirty_lem}

abbrev pub cache_map : DashMap CachedReasoning (Table CachedReasoning)
cache_map = table_map

abbrev entry_1 : CachedReasoning
entry_1 = record {
  entity_id = 1;
  related_entities = 1 ∷ 2 ∷ [];
  label_set = label 1 ∷ [];
  inserted_ns = 10;
  dirty = false;
}

abbrev two_entries : Table CachedReasoning
two_entries =
    Cache.insert cache_map 10 1 (1 ∷ 2 ∷ []) (label 1 ∷ [])
      (Cache.insert cache_map 9 2 [] (label 2 ∷ []) cache_map.empty)

found : cache_map.get 1 two_entries ≡ some entry_1
unfolding Cache.insert Dict.lookup Dict.insert Dict.upsert
found = refl

-- Label 1 invalidates the entry of entity 1, and spares that of entity 2.
invalidated :
    let after = Cache.invalidate_dirty cache_map 3 (label 1 ∷ []) two_entries in
    (Cache.contains cache_map 1 after ≡ false)
    × (Cache.contains cache_map 2 after ≡ true)
    × (Cache.len cache_map after ≡ 2)
    × (Cache.clean_count cache_map after ≡ 1)
    × (Cache.len cache_map (Cache.evict_dirty cache_map after) ≡ 1)
unfolding Cache.invalidate_dirty Cache.contains Cache.insert Cache.len Cache.clean_count
    Cache.evict_dirty mark is_disjoint Dict.lookup Dict.insert Dict.upsert Dict.alter_all
    Dict.retain
invalidated = (refl, refl, refl, refl, refl)

invalidate_dirty_exact_example :
    let after = Cache.invalidate_dirty cache_map 3 (label 1 ∷ []) two_entries in
    ((Cache.contains cache_map 1 after ≡ true) ↔ (
      (is_clean entry_1 ≡ true)
      × (entry_1.entity_id ≢ 3)
      × ((l : LabelId) → In l (label 1 ∷ []) → ¬ In l (label 1 ∷ []))))
    × (cache_map.get 1 after
        ≡ some (record entry_1 { dirty = not (Cache.contains cache_map 1 after) }))
invalidate_dirty_exact_example =
    invalidate_dirty_exact cache_map table_laws 3 (label 1 ∷ []) two_entries 1 entry_1 found

evict_dirty_lem_example :
    ((j : ℕ)
      → (Cache.contains cache_map j (Cache.evict_dirty cache_map two_entries)
          ≡ Cache.contains cache_map j two_entries)
        × (Cache.get_related cache_map j (Cache.evict_dirty cache_map two_entries)
            ≡ Cache.get_related cache_map j two_entries))
    × ((j : ℕ) (e : CachedReasoning)
        → cache_map.get j (Cache.evict_dirty cache_map two_entries) ≡ some e
        → is_clean e ≡ true)
    × (Cache.len cache_map (Cache.evict_dirty cache_map two_entries)
        ≡ Cache.clean_count cache_map two_entries)
evict_dirty_lem_example = evict_dirty_lem cache_map table_laws two_entries

two_entries-IsKeyed : Runs.IsKeyed cache_map two_entries
unfolding Cache.insert Dict.lookup Dict.insert Dict.upsert
two_entries-IsKeyed j e p = ground (
  arith,
  nat_beq_iff j 1,
  nat_beq_iff j 2,
  ap (λ (x : Option CachedReasoning). Option.map (λ y. y.entity_id) x) p,
)

abbrev cache_calls : List Runs.Call
cache_calls =
    Runs.insert_call 11 4 (7 ∷ []) (label 3 ∷ [])
    ∷ Runs.invalidate_call 2 (label 1 ∷ [])
    ∷ Runs.evict_call
    ∷ []

-- Entity 4 is left.
after_cache_calls :
    let after = Runs.run cache_map cache_calls two_entries in
    (Cache.get_related cache_map 4 after ≡ some (7 ∷ []))
    × (Cache.contains cache_map 1 after ≡ false)
    × (Cache.contains cache_map 2 after ≡ false)
    × (Cache.len cache_map after ≡ 1)
unfolding Runs.run Runs.perform Cache.invalidate_dirty Cache.contains Cache.get_related Cache.insert
    Cache.len Cache.evict_dirty mark is_disjoint Dict.lookup Dict.insert Dict.upsert Dict.alter_all
    Dict.retain
after_cache_calls = (refl, refl, refl, refl)

run-promised_example :
    (Cache.contains cache_map 4 (Runs.run cache_map cache_calls two_entries)
      ≡ is_some (Runs.promised_all cache_calls (Runs.view cache_map two_entries) 4))
    × (Cache.get_related cache_map 4 (Runs.run cache_map cache_calls two_entries)
        ≡ Option.map (λ p. p.0) (Runs.promised_all cache_calls (Runs.view cache_map two_entries) 4))
run-promised_example =
    Runs.run-promised cache_map table_laws cache_calls two_entries two_entries-IsKeyed 4
