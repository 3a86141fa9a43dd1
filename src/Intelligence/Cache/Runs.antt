-- ===== src/Intelligence/Cache/Runs.antt =====
-- Runs of calls on `PrefixCache` (crates/intelligence/src/cache.rs), against a plain function from
-- ids to the related entities and labels of the entries that answer.
use mathlib.Core.Option
use atlas_hpc.Base.{
  ℕ, ◌≡◌, refl, ◌∙◌, ap, fun_ext, false, Option, none, some, List, [], ◌∷◌, ◌==◌, nat_eq,
  nat_beq_iff, if◌then◌else◌, arith, Bool-cases, Option-cases, inl, inr,
}
use atlas_hpc.Base.Dict.{keep_if, is_some}
use atlas_hpc.HotTier.DashMap.{DashMap, IsDashMap}
use atlas_hpc.Types.Label.{LabelId}
use atlas_hpc.Intelligence.Cache.{
  CachedReasoning, is_disjoint, mark, is_clean, insert, contains, get_related, invalidate_dirty,
  evict_dirty,
}

-- A call that writes: the id, and the labels of an entry or of an update.
pub data Call : Type 0 where
  -- now, entity_id, related_entities, label_set
  insert_call : ℕ → ℕ → List ℕ → List LabelId → Call
  invalidate_call : ℕ → List LabelId → Call
  evict_call : Call

-- The abstract cache: an id has a related set with its labels, or no answer.
abbrev pub View : Type 0
View = ℕ → Option (List ℕ × List LabelId)

-- What each call promises: an insert binds its id, an invalidation forgets its id and whatever
-- shares a label with it, and an eviction is not seen.
abbrev pub promised : Call → View → View
promised (insert_call now k related labels) s j = if k == j then some (related, labels) else s j
promised (invalidate_call k updated) s j =
    if k == j then none else keep_if (λ p. is_disjoint p.1 updated) (s j)
promised evict_call s j = s j

abbrev pub promised_all : List Call → View → View
promised_all [] s = s
promised_all (c ∷ cs) s = promised_all cs (promised c s)

-- The entry of an insert.
abbrev fresh : ℕ → ℕ → List ℕ → List LabelId → CachedReasoning
fresh now k related labels = record {
  entity_id = k;
  related_entities = related;
  label_set = labels;
  inserted_ns = now;
  dirty = false;
}

module _ {M : Type 0} (t : DashMap CachedReasoning M) where
  unfoldable pub perform : Call → M → M
  perform (insert_call now k related labels) m = insert t now k related labels m
  perform (invalidate_call k updated) m = invalidate_dirty t k updated m
  perform evict_call m = evict_dirty t m

  unfoldable pub run : List Call → M → M
  run [] m = m
  run (c ∷ cs) m = run cs (perform c m)

  -- The entries that answer; a dirty entry is as good as none.
  unfoldable pub view : M → View
  view m j = Option.map (λ e. (e.related_entities, e.label_set)) (keep_if is_clean (t.get j m))

  -- Every entry stands under its own id.
  abbrev pub IsKeyed : M → Type 0
  IsKeyed m = (j : ℕ) (e : CachedReasoning) → t.get j m ≡ some e → e.entity_id ≡ j

  -- What callers see is in the view.
  view_reads :
      (m : M) (j : ℕ)
      → (contains t j m ≡ is_some (view m j))
        × (get_related t j m ≡ Option.map (λ p. p.0) (view m j))
  unfolding view contains get_related
  view_reads m j = elim (Option-cases (t.get j m)) [
    | inl gone ↦ (ground arith, ground arith)
    | inr (e, there) ↦ elim (Bool-cases e.dirty) [
      | inl dirty ↦ (ground arith, ground arith)
      | inr clean ↦ (ground arith, ground arith)
    ]
  ]

  module _ (laws : IsDashMap t) where
    perform-IsKeyed : (c : Call) (m : M) → IsKeyed m → IsKeyed (perform c m)
    unfolding perform insert invalidate_dirty evict_dirty mark
    perform-IsKeyed (insert_call now k related labels) m h j e found =
        let read = laws.get-insert k (fresh now k related labels) m j in
        ground (arith, read, nat_beq_iff k j, h j e)
    perform-IsKeyed (invalidate_call k updated) m h j e found = elim (Option-cases (t.get j m)) [
      | inl gone ↦ absurd (ground (arith, laws.get-alter_all (mark k updated) m j))
      | inr (e', there) ↦ ground (arith, laws.get-alter_all (mark k updated) m j, h j e' there)
    ]
    perform-IsKeyed evict_call m h j e found = elim (Option-cases (t.get j m)) [
      | inl gone ↦ absurd (ground (arith, laws.get-retain (λ _ v. is_clean v) m j))
      | inr (e', there) ↦ ground (arith, laws.get-retain (λ _ v. is_clean v) m j, h j e' there)
    ]

    perform-view :
        (c : Call) (m : M) → IsKeyed m → (j : ℕ) → view (perform c m) j ≡ promised c (view m) j
    unfolding perform view insert invalidate_dirty evict_dirty mark
    perform-view (insert_call now k related labels) m h j =
        ground (arith, laws.get-insert k (fresh now k related labels) m j)
    perform-view (invalidate_call k updated) m h j = elim (Option-cases (t.get j m)) [
      | inl gone ↦ ground (arith, laws.get-alter_all (mark k updated) m j)
      | inr (e, there) ↦ elim (Bool-cases e.dirty) [
        | inl dirty ↦
            ground (arith, laws.get-alter_all (mark k updated) m j, h j e there, nat_beq_iff k j)
        | inr clean ↦ ground (
          arith,
          laws.get-alter_all (mark k updated) m j,
          h j e there,
          nat_beq_iff k j,
          nat_beq_iff e.entity_id k,
        )
      ]
    ]
    perform-view evict_call m h j = elim (Option-cases (t.get j m)) [
      | inl gone ↦ ground (arith, laws.get-retain (λ _ v. is_clean v) m j)
      | inr (e, there) ↦ ground (arith, laws.get-retain (λ _ v. is_clean v) m j)
    ]

    run-view : (cs : List Call) (m : M) → IsKeyed m → view (run cs m) ≡ promised_all cs (view m)
    unfolding run
    run-view [] m h = refl
    run-view (c ∷ cs) m h =
        run-view cs (perform c m) (perform-IsKeyed c m h)
        ∙ ap (promised_all cs) (fun_ext (perform-view c m h))

    -- If every entry of the cache stands under its own id, then after any run of `insert`,
    -- `invalidate_dirty` and `evict_dirty` the cache answers as the calls promise, one after the
    -- other, of a plain function from ids to related entities with their labels: `contains` says
    -- whether the id has a value, and `get_related` gives its related entities. An insert binds its
    -- id, an invalidation forgets its id and all that shares a label with the updated ones, and an
    -- eviction changes no answer.
    pub run-promised :
        (cs : List Call) (m : M)
        → IsKeyed m
        → (j : ℕ)
        → (contains t j (run cs m) ≡ is_some (promised_all cs (view m) j))
          × (get_related t j (run cs m) ≡ Option.map (λ p. p.0) (promised_all cs (view m) j))
    run-promised cs m h j =
        let (hit, related) = view_reads (run cs m) j in
        let same = ap (λ (v : View). v j) (run-view cs m h) in
        (hit ∙ ap is_some same, related ∙ ap (Option.map (λ p. p.0)) same)
