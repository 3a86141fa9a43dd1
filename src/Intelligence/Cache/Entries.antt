-- ===== src/Intelligence/Cache/Entries.antt =====
-- What each operation of the cache does to each entry, and to the counts.
use atlas_hpc.Base.{
  ℕ, ◌≡◌, ◌≢◌, ◌↔◌, refl, ◌∙◌, ap, subst, true, not, some, List, [], ◌∷◌, nat_eq, mem_iff, In,
  arith, nat_beq_iff, Option-cases, inl, inr,
}
use atlas_hpc.HotTier.DashMap.{DashMap, IsDashMap, len-retain}
use atlas_hpc.Types.Label.{LabelId, label_eq}
use atlas_hpc.Intelligence.Cache.{
  CachedReasoning, is_disjoint, mark, is_clean, contains, get_related, invalidate_dirty,
  evict_dirty, len, clean_count,
}

pub is_disjoint_iff :
    (xs ys : List LabelId) → (is_disjoint xs ys ≡ true) ↔ ((l : LabelId) → In l xs → ¬ In l ys)
unfolding is_disjoint
is_disjoint_iff [] ys = (λ h l i. absurd i, λ h. refl)
is_disjoint_iff (x ∷ xs) ys = (
  λ h l i j. elim i [
    | inl e ↦ ground (arith, mem_iff x ys, subst (λ y. In y ys) e j)
    | inr i' ↦ (is_disjoint_iff xs ys).0 (ground arith) l i' j
  ],
  λ h. ground (arith, mem_iff x ys, h x (inl refl), (is_disjoint_iff xs ys).1 (λ l i. h l (inr i))),
)

-- A marked entry is clean exactly if it was, is of another entity, and has no updated label.
pub mark_clean :
    (id : ℕ) (updated : List LabelId) (e : CachedReasoning)
    → (is_clean (mark id updated e) ≡ true) ↔ (
        (is_clean e ≡ true)
        × (e.entity_id ≢ id)
        × ((l : LabelId) → In l e.label_set → ¬ In l updated))
unfolding mark
mark_clean id updated e = (
  λ h. (
    ground arith,
    λ same. ground (arith, nat_beq_iff e.entity_id id),
    (is_disjoint_iff e.label_set updated).0 (ground arith),
  ),
  λ (clean, other, apart).
      ground (arith, nat_beq_iff e.entity_id id, (is_disjoint_iff e.label_set updated).1 apart),
)

-- Marking touches the dirty bit alone.
mark_bit :
    (id : ℕ) (updated : List LabelId) (e : CachedReasoning)
    → mark id updated e ≡ record e { dirty = not (is_clean (mark id updated e)) }
unfolding mark
mark_bit id updated e = ground arith

module _ {M : Type 0} (t : DashMap CachedReasoning M) (laws : IsDashMap t) where
  read_invalidated :
      (id : ℕ) (updated : List LabelId) (m : M) (j : ℕ) (e : CachedReasoning)
      → t.get j m ≡ some e
      → t.get j (invalidate_dirty t id updated m) ≡ some (mark id updated e)
  unfolding invalidate_dirty
  read_invalidated id updated m j e found =
      ground (arith, laws.get-alter_all (mark id updated) m j, found)

  contains-eq :
      (m : M) (j : ℕ) (e : CachedReasoning) → t.get j m ≡ some e → contains t j m ≡ is_clean e
  unfolding contains
  contains-eq m j e found = rw (found, contains)

  -- After `invalidate_dirty` an entity is a hit exactly if its entry was clean, is not of the updated
  -- entity, and shares no label with the updated ones. The entry is otherwise as it was.
  pub invalidate_dirty_exact :
      (id : ℕ) (updated : List LabelId) (m : M) (j : ℕ) (e : CachedReasoning)
      → t.get j m ≡ some e
      → ((contains t j (invalidate_dirty t id updated m) ≡ true) ↔ (
          (is_clean e ≡ true)
          × (e.entity_id ≢ id)
          × ((l : LabelId) → In l e.label_set → ¬ In l updated)))
        × (t.get j (invalidate_dirty t id updated m)
            ≡ some (record e { dirty = not (contains t j (invalidate_dirty t id updated m)) }))
  invalidate_dirty_exact id updated m j e found =
      let read = read_invalidated id updated m j e found in
      let hit = contains-eq (invalidate_dirty t id updated m) j (mark id updated e) read in
      rw hit (mark_clean id updated e, read ∙ ap some (mark_bit id updated e))

  -- `evict_dirty` changes no answer of `contains` or `get_related`, leaves only clean entries, and
  -- leaves as many entries as `clean_count` counted.
  pub evict_dirty_lem :
      (m : M)
      → ((j : ℕ)
          → (contains t j (evict_dirty t m) ≡ contains t j m)
            × (get_related t j (evict_dirty t m) ≡ get_related t j m))
        × ((j : ℕ) (e : CachedReasoning) → t.get j (evict_dirty t m) ≡ some e → is_clean e ≡ true)
        × (len t (evict_dirty t m) ≡ clean_count t m)
  unfolding contains get_related evict_dirty len clean_count
  evict_dirty_lem m = (
    λ j. elim (Option-cases (t.get j m)) [
      | inl gone ↦ let read = laws.get-retain (λ _ v. is_clean v) m j in ground (arith, read)
      | inr (e, there) ↦ let read = laws.get-retain (λ _ v. is_clean v) m j in ground (arith, read)
    ],
    λ j e p. elim (Option-cases (t.get j m)) [
      | inl gone ↦ let read = laws.get-retain (λ _ v. is_clean v) m j in ground (arith, read)
      | inr (e', there) ↦ let read = laws.get-retain (λ _ v. is_clean v) m j in ground (arith, read)
    ],
    len-retain t laws (λ _ v. is_clean v) m,
  )
