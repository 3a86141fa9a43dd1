-- ===== src/WarmTier/Activation/Complete.antt =====
-- While the clock stays below the deadline, the traversal misses nothing. The queue holds one level
-- of hops and then the next, so every label is visited at its smallest number of hops.
use native.Mathlib.Decide.{dec_le}
use atlas_hpc.Base.{
  ℕ, zero, suc, ◌+◌, ◌≤◌, ◌<◌, ◌≡◌, ◌↔◌, refl, sym, ap, subst, List, [], ◌∷◌, nat_eq, In,
  List-cases, ◌⊎◌, inl, inr, arith,
}
use atlas_hpc.Base.Outcome.{done, map_outcome-eq-done}
use atlas_hpc.Types.Label.{LabelId, label_eq}
use atlas_hpc.WarmTier.Graph.{GraphInner}
use atlas_hpc.WarmTier.Activation.{Search, visit, loop, start, spreading_activation}
use atlas_hpc.WarmTier.Activation.Scan.{visit_lem}
use atlas_hpc.WarmTier.Activation.Paths.{Reached, here, hop, Within}
use atlas_hpc.WarmTier.Activation.Sound.{activation_sound}
use atlas_hpc.WarmTier.Activation.Ends.{activation_ends}
use atlas_hpc.WarmTier.Activation.Levels.{
  Level, Levels, Levels-Level, IsDone, IsFull, IsFull-next, after-IsFull,
}

module _ {F D : Type 0} (g : GraphInner F D) (max_hops : ℕ) (first : LabelId) where
  abbrev IsFullAt : Search → Type 0
  IsFullAt s = (c : ℕ) × IsFull g max_hops first c s

  round-IsFullAt :
      (s : Search) (l : LabelId) (h : ℕ) (rest : List (LabelId × ℕ))
      → s.queue ≡ (l, h) ∷ rest
      → IsFullAt s
      → (h ≤ max_hops) × IsFullAt (visit g max_hops l h (record s { queue = rest }))
  round-IsFullAt s l h rest front (c, i) =
      let le : h ≤ max_hops = i.near l h (subst (In (l, h)) (sym front) (inl refl)) in
      (
        le,
        elim (subst (Levels c) front i.levels) [
          | inl (e, levels) ↦ visited c i (sym e) levels
          | inr (e, level) ↦
              let full = subst (Level (suc c)) (sym front) (e, level) in
              visited (suc c) (IsFull-next g max_hops first c s full (omega arith) i) (sym e)
                (Levels-Level (suc c) rest level)
        ],
      )
    where
      visited :
          (c : ℕ)
          → IsFull g max_hops first c s
          → c ≡ h
          → Levels c rest
          → IsFullAt (visit g max_hops l h (record s { queue = rest }))
      visited c i e levels =
          subst (λ k. IsFullAt (visit g max_hops l k (record s { queue = rest }))) e
            (
              c,
              rw (visit_lem g max_hops c l (record s { queue = rest })) (
                  after-IsFull g max_hops first c s l rest
                    (subst (λ k. s.queue ≡ (l, k) ∷ rest) (sym e) front) i levels),
            )

  start-IsFullAt : IsFullAt (start g max_hops first)
  start-IsFullAt = (
    0,
    record {
      reach = only_start;
      waiting =
          λ l v. elim v [ inl p ↦ inl (0, inl (ap (λ x. (x, 0)) p)) | inr gone ↦ absurd gone ];
      closed = λ lt e l i. absurd i;
      levels = inl (refl, tt);
      near = λ l h q. elim q [
        | inl p ↦ let e = ap (λ (x : LabelId × ℕ). x.1) p in omega arith
        | inr gone ↦ absurd gone
      ];
    },
  )
    where
      only_start :
          (h : ℕ) (l : LabelId)
          → h ≤ 0
          → Reached g first h l
          → In (l, 0) (start g max_hops first).queue
            ⊎ IsDone g max_hops first (start g max_hops first) l
      only_start h l le here = inl (inl refl)
      only_start h l le (hop e l' r under carried) = absurd (omega arith)

  -- While the clock stays below the deadline the loop stops at an empty queue.
  loop_finishes :
      (clock : ℕ → ℕ) (deadline : ℕ)
      → ((k : ℕ) → clock k < deadline)
      → (fuel k : ℕ) (s t : Search) → IsFullAt s
      → loop g max_hops clock deadline fuel k s ≡ done t
      → IsFullAt t × (t.queue ≡ [])
  unfolding loop
  loop_finishes clock deadline early zero k s t i e = elim (List-cases s.queue) [
    | inl empty ↦
        let same : s ≡ t = ground arith in
        (subst IsFullAt same i, subst (λ (x : Search). x.queue ≡ []) same empty)
    | inr (x, rest, q) ↦ absurd (ground arith)
  ]
  loop_finishes clock deadline early (suc fuel) k s t i e = elim (List-cases s.queue) [
    | inl empty ↦
        let same : s ≡ t = ground arith in
        (subst IsFullAt same i, subst (λ (x : Search). x.queue ≡ []) same empty)
    | inr ((l, h), rest, q) ↦
        let (near, next) = round-IsFullAt s l h rest q i in
        loop_finishes clock deadline early fuel (suc k)
          (visit g max_hops l h (record s { queue = rest })) t next (ground (arith, early k))
  ]

  -- With the queue empty everything within the hops is found.
  all-IsDone :
      (t : Search)
      → IsFullAt t
      → t.queue ≡ []
      → (h : ℕ) (l : LabelId) → Reached g first h l
      → h ≤ max_hops
      → IsDone g max_hops first t l
  all-IsDone t (c, i) empty h l r le = go h l r le
    where
      near : (h : ℕ) (l : LabelId) → Reached g first h l → h ≤ c → IsDone g max_hops first t l
      near h l r h_le = elim (i.reach h l h_le r) [
        | inl q ↦ absurd (subst (In (l, c)) empty q)
        | inr d ↦ d
      ]

      visited : (l : LabelId) → In l t.visited → IsDone g max_hops first t l
      visited l v = elim (i.waiting l v) [
        | inl (h, q) ↦ absurd (subst (In (l, h)) empty q)
        | inr d ↦ d
      ]

      go : (h : ℕ) (l : LabelId) → Reached g first h l → h ≤ max_hops → IsDone g max_hops first t l
      go h l here le = near zero first here (omega arith)
      go h l (hop {hops} {l = via} e next r under carried) le = elim (dec_le (suc hops) c) [
        | yes h_le ↦ near (suc hops) next (hop e next r under carried) h_le
        | no far ↦
            visited next
              (i.closed (omega arith) e next (go hops via r (omega arith) e under) carried)
      ]

  activation_found :
      (clock : ℕ → ℕ)
      → ((k : ℕ) → clock (suc k) < clock 0 + 100_000)
      → (result : List ℕ) → spreading_activation g max_hops clock first ≡ done result
      → (e : ℕ) → Within g first max_hops e
      → In e result
  unfolding spreading_activation
  activation_found clock early result p e (h, l, le, r, under) =
      let (t, ran, same) = map_outcome-eq-done (λ (s : Search). s.found) _ result p in
      let (full, empty) =
        loop_finishes (λ k. clock (suc k)) (clock 0 + 100_000) early _ 0 (start g max_hops first) t
          start-IsFullAt ran in
      subst (In e) same (all-IsDone t full empty h l r le e under)

  -- If no reading of the clock reaches the deadline (100 µs after the first reading), then
  -- `spreading_activation` returns a result: exactly the entities that stand under a label at most
  -- `max_hops` hops from the start label.
  pub activation_exact :
      (clock : ℕ → ℕ)
      → ((k : ℕ) → clock (suc k) < clock 0 + 100_000)
      → (result : List ℕ) × (spreading_activation g max_hops clock first ≡ done result)
        × ((e : ℕ) → In e result ↔ Within g first max_hops e)
  activation_exact clock early =
      let (result, ran) = activation_ends g max_hops clock first in
      (
        result,
        ran,
        λ e. (
          activation_sound g max_hops first clock result ran e,
          λ w. activation_found clock early result ran e w,
        ),
      )
