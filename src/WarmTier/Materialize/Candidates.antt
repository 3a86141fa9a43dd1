-- ===== src/WarmTier/Materialize/Candidates.antt =====
-- The candidates that `materialize_temporal_link` (crates/warm-tier/src/lib.rs) collects, and the
-- links that it writes.
use mathlib.Core.Option
use atlas_hpc.Base.{
  ℕ, ◌≡◌, ◌≢◌, refl, sym, subst, not, ◌&&◌, some, List, [], ◌∷◌, Eq, ◌++◌, ◌==◌, ==_iff, nat_eq,
  pair_eq, mem, if◌then◌else◌, In, In-append, Bool-cases, ◌⊎◌, inl, inr, arith, nat_beq_iff,
}
use atlas_hpc.Base.Dict
use atlas_hpc.Base.Dict.{Dict}
use atlas_hpc.Types.Label.{LabelId, label_eq}
use atlas_hpc.Types.Link.{TemporalLink}
use atlas_hpc.WarmTier.Graph.{GraphInner}
use atlas_hpc.WarmTier.Graph.Tagging.{labels_of, entities_of}
use atlas_hpc.WarmTier.Materialize.{add_candidates, list_at, candidates, commit}

-- A candidate is another entity that shares a label.
abbrev pub IsCandidate : {F D : Type 0} → GraphInner F D → ℕ → ℕ → Type 0
IsCandidate g src_id c =
    (c ≢ src_id) × ((l : LabelId) × In l (labels_of g src_id) × In c (entities_of g l))

pub add_candidates_lem :
    (src_id : ℕ) (es ids : List ℕ) (P : ℕ → Type 0)
    → ((e : ℕ) → In e es → e ≢ src_id → P e)
    → ((c : ℕ) → In c ids → P c)
    → (c : ℕ) → In c (add_candidates src_id es ids)
    → P c
unfolding add_candidates
add_candidates_lem src_id [] ids P new old c i = old c i
add_candidates_lem src_id (e ∷ es) ids P new old c i =
    add_candidates_lem src_id es _ P (λ x q. new x (inr q)) (step e (new e (inl refl))) c i
  where
    step :
        (e : ℕ)
        → (e ≢ src_id → P e)
        → (c : ℕ) → In c (if not (e == src_id) && not (mem e ids) then ids ++ e ∷ [] else ids)
        → P c
    step e p c i = elim (Bool-cases (not (e == src_id) && not (mem e ids))) [
      | inl t ↦ elim ((In-append c ids (e ∷ [])).0 (rw t at i)) [
        | inl q ↦ old c q
        | inr (inl q) ↦ subst P (sym q) (p (ground (arith, nat_beq_iff e src_id)))
        | inr (inr q) ↦ absurd q
      ]
      | inr f ↦ old c (rw f at i)
    ]

pub list_at-lookup :
    {K V : Type 0} ⦃e : Eq K⦄ (k : K) (m : Dict K (List V))
    → list_at k m ≡ Option.get_or (Dict.lookup k m) []
list_at-lookup k m = ground arith

pub insert_read :
    {F : Type 0} (x link : TemporalLink F) (key : LabelId × LabelId)
    (m : Dict (LabelId × LabelId) (TemporalLink F))
    → Dict.lookup key (Dict.insert (x.src, x.dst) x m) ≡ some link
    → ((link ≡ x) × (key ≡ (link.src, link.dst))) ⊎ (Dict.lookup key m ≡ some link)
insert_read x link key m h = elim (Bool-cases ((x.src, x.dst) == key)) [
  | inl same ↦
      let found : some x ≡ some link =
        ground (arith, Dict.lookup-insert (x.src, x.dst) x key m, same) in
      let e : link ≡ x = cc in
      let at_key : (x.src, x.dst) ≡ key = (==_iff (x.src, x.dst) key).0 same in
      inl (e, subst (λ (y : TemporalLink _). key ≡ (y.src, y.dst)) (sym e) (sym at_key))
  | inr other ↦ inr (ground (arith, Dict.lookup-insert (x.src, x.dst) x key m, other))
]

module _ {F D : Type 0} where
  pub commit_lem :
      (links : List (TemporalLink F)) (g : GraphInner F D) (key : LabelId × LabelId)
      (link : TemporalLink F)
      → Dict.lookup key (commit links g).temporal_links ≡ some link
      → (In link links × (key ≡ (link.src, link.dst)))
        ⊎ (Dict.lookup key g.temporal_links ≡ some link)
  unfolding commit
  commit_lem [] g key link h = inr h
  commit_lem (x ∷ links) g key link h = elim (commit_lem links _ key link h) [
    | inl (i, e) ↦ inl (inr i, e)
    | inr h' ↦ elim (insert_read x link key g.temporal_links h') [
      | inl (e, at_key) ↦ inl (inl e, at_key)
      | inr old ↦ inr old
    ]
  ]

  pub candidates_lem :
      (g : GraphInner F D) (src_id : ℕ) (ls : List LabelId) (ids : List ℕ)
      → ((l : LabelId) → In l ls → In l (labels_of g src_id))
      → ((c : ℕ) → In c ids → IsCandidate g src_id c)
      → (c : ℕ) → In c (candidates g src_id ls ids)
      → IsCandidate g src_id c
  unfolding candidates
  candidates_lem g src_id [] ids sub old c i = old c i
  candidates_lem g src_id (l ∷ ls) ids sub old c i =
      let under = entities_of g l in
      let next =
        add_candidates_lem src_id under ids (IsCandidate g src_id)
          (λ e q ne. (ne, (l, sub l (inl refl), q))) old in
      candidates_lem g src_id ls (add_candidates src_id under ids) (λ j q. sub j (inr q)) next c
        (rw list_at-lookup at i)
