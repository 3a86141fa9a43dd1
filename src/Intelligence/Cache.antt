-- ===== src/Intelligence/Cache.antt =====
-- crates/intelligence/src/cache.rs: `PrefixCache`. `M` is its `DashMap`; a clock reading is an
-- argument.
pub mod Entries
pub mod Hits
pub mod Runs
use mathlib.Core.Option
use atlas_hpc.Base.{
  ℕ, Bool, true, false, not, ◌&&◌, ◌||◌, Option, none, some, List, [], ◌∷◌, ◌==◌, nat_eq, mem,
  length, if◌then◌else◌,
}
use atlas_hpc.Base.Dict.{keep_if, count_where}
use atlas_hpc.HotTier.DashMap.{DashMap, len as map_len}
use atlas_hpc.Types.Label.{LabelId, label_eq}

pub record CachedReasoning : Type 0 where
  pub entity_id : ℕ
  pub related_entities : List ℕ
  pub label_set : List LabelId
  pub inserted_ns : ℕ
  pub dirty : Bool

-- `HashSet::is_disjoint`.
unfoldable pub is_disjoint : List LabelId → List LabelId → Bool
is_disjoint [] updated = true
is_disjoint (l ∷ ls) updated = not (mem l updated) && is_disjoint ls updated

-- The body of the loop in `invalidate_dirty`.
unfoldable pub mark : ℕ → List LabelId → CachedReasoning → CachedReasoning
mark entity_id updated entry =
    let is_dirty = entry.entity_id == entity_id || not (is_disjoint entry.label_set updated) in
    if is_dirty && not entry.dirty then record entry { dirty = true } else entry

-- `|e| !e.dirty`.
abbrev pub is_clean : CachedReasoning → Bool
is_clean e = not e.dirty

module _ {M : Type 0} (t : DashMap CachedReasoning M) where
  -- `PrefixCache::new`, which `Default` calls.
  unfoldable pub new : M
  new = t.empty

  unfoldable pub insert : ℕ → ℕ → List ℕ → List LabelId → M → M
  insert now entity_id related_entities label_set = t.insert entity_id (record {
    entity_id = entity_id;
    related_entities = related_entities;
    label_set = label_set;
    inserted_ns = now;
    dirty = false;
  })

  unfoldable pub contains : ℕ → M → Bool
  contains entity_id m = Option.get_or (Option.map is_clean (t.get entity_id m)) false

  unfoldable pub get_related : ℕ → M → Option (List ℕ)
  get_related entity_id m =
      Option.map (λ e. e.related_entities) (keep_if is_clean (t.get entity_id m))

  unfoldable pub invalidate_dirty : ℕ → List LabelId → M → M
  invalidate_dirty entity_id updated_labels = t.alter_all (mark entity_id updated_labels)

  unfoldable pub evict_dirty : M → M
  evict_dirty = t.retain (λ _ v. is_clean v)

  unfoldable pub len : M → ℕ
  len m = map_len t m

  unfoldable pub is_empty : M → Bool
  is_empty m = map_len t m == 0

  unfoldable pub clean_count : M → ℕ
  clean_count m = count_where (λ _ v. is_clean v) (t.entries m)
