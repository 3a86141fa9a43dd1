-- ===== src/WarmTier/Activation/Levels.antt =====
-- The queue of the traversal (crates/warm-tier/src/lib.rs, `spreading_activation`) holds one level of
-- hops and then the next: what a round does to the invariant.
use atlas_hpc.Base.{
  ℕ, zero, suc, ◌≤◌, ◌<◌, ◌≡◌, sym, ap, subst, List, [], ◌∷◌, ◌++◌, nat_eq, In, In-append, All,
  All-append, All-of_In, In_of_All, ◌⊎◌, inl, inr, arith,
}
use atlas_hpc.Types.Label.{LabelId, label_eq}
use atlas_hpc.WarmTier.Graph.{GraphInner}
use atlas_hpc.WarmTier.Graph.Tagging.{entities_of}
use atlas_hpc.WarmTier.Activation.{Search, offer_entities}
use atlas_hpc.WarmTier.Activation.Scan.{
  Closed, offer_entities-Grows, offer_entities_found, offer_entities-Closed,
}
use atlas_hpc.WarmTier.Activation.Grown.{Grows, Grows-queue}
use atlas_hpc.WarmTier.Activation.Paths.{Reached, here, hop}

-- All of one level.
abbrev pub Level : ℕ → List (LabelId × ℕ) → Type 0
Level c = All (λ x. x.1 ≡ c)

-- Some of level `c`, then some of the next.
abbrev pub Levels : ℕ → List (LabelId × ℕ) → Type 0
Levels c [] = Unit
Levels c (x ∷ q) = (x.1 ≡ c) × Levels c q ⊎ (x.1 ≡ suc c) × Level (suc c) q

pub Levels-Level : (c : ℕ) (q : List (LabelId × ℕ)) → Level c q → Levels c q
Levels-Level c [] l = tt
Levels-Level c (x ∷ q) l = inl (l.0, Levels-Level c q l.1)

pub Levels-next : (c : ℕ) (q : List (LabelId × ℕ)) → Level (suc c) q → Levels c q
Levels-next c [] l = tt
Levels-next c (x ∷ q) l = inr l

pub Levels-append :
    (c : ℕ) (q new : List (LabelId × ℕ)) → Levels c q → Level (suc c) new → Levels c (q ++ new)
Levels-append c [] new l n = Levels-next c new n
Levels-append c (x ∷ q) new (inl l) n = inl (l.0, Levels-append c q new l.1 n)
Levels-append c (x ∷ q) new (inr l) n = inr (l.0, All-append (λ x. x.1 ≡ suc c) q new l.1 n)

module _ {F D : Type 0} (g : GraphInner F D) (max_hops : ℕ) (first : LabelId) where
  -- All entities under the label are found.
  abbrev pub IsDone : Search → LabelId → Type 0
  IsDone s l = (e : ℕ) → In e (entities_of g l) → In e s.found

  -- `c` is the level at the front.
  pub record IsFull (c : ℕ) (s : Search) : Type 0 where
    pub reach : (h : ℕ) (l : LabelId) → h ≤ c → Reached g first h l → In (l, c) s.queue ⊎ IsDone s l
    pub waiting : (l : LabelId) → In l s.visited → ((h : ℕ) × In (l, h) s.queue) ⊎ IsDone s l
    pub closed : c < max_hops → Closed g max_hops c s
    pub levels : Levels c s.queue
    pub near : (l : LabelId) (h : ℕ) → In (l, h) s.queue → h ≤ max_hops

  -- Level `c` is empty: the next is at the front.
  pub IsFull-next :
      (c : ℕ) (s : Search)
      → Level (suc c) s.queue
      → suc c ≤ max_hops
      → IsFull c s
      → IsFull (suc c) s
  IsFull-next c s level le i = record {
    reach = reach_next;
    waiting = i.waiting;
    closed = λ lt. i.closed (omega arith);
    levels = Levels-Level (suc c) s.queue level;
    near = i.near;
  }
    where
      none_left : (l : LabelId) → In (l, c) s.queue → ⊥
      none_left l q = let e = In_of_All (λ x. x.1 ≡ suc c) s.queue level (l, c) q in omega arith

      earlier : (h : ℕ) (l : LabelId) → h ≤ c → Reached g first h l → IsDone s l
      earlier h l h_le r = elim (i.reach h l h_le r) [ inl q ↦ absurd (none_left l q) | inr d ↦ d ]

      visited_next : (l : LabelId) → In l s.visited → In (l, suc c) s.queue ⊎ IsDone s l
      visited_next l v = elim (i.waiting l v) [
        | inl (h, q) ↦
            let e = In_of_All (λ x. x.1 ≡ suc c) s.queue level (l, h) q in
            inl (subst (λ k. In (l, k) s.queue) e q)
        | inr d ↦ inr d
      ]

      reach_next :
          (h : ℕ) (l : LabelId)
          → h ≤ suc c
          → Reached g first h l
          → In (l, suc c) s.queue ⊎ IsDone s l
      reach_next h l h_le here = inr (earlier zero first (omega arith) here)
      reach_next h l h_le (hop {hops} {l = via} e l' r under carried) =
          visited_next l'
            (i.closed (omega arith) e l' (earlier hops via (omega arith) r e under) carried)

  -- What a round at the front label does to the invariant.
  module _ (c : ℕ) (s : Search) (l : LabelId) (rest : List (LabelId × ℕ))
      (front : s.queue ≡ (l, c) ∷ rest) (i : IsFull c s) where
    abbrev pub popped : Search
    popped = record s { queue = rest }

    abbrev pub after : Search
    after = offer_entities g max_hops c (entities_of g l) popped

    pub grows : Grows max_hops c popped after
    grows = offer_entities-Grows g max_hops c (entities_of g l) popped

    pub front-IsDone : IsDone after l
    front-IsDone e under =
        (offer_entities_found g max_hops c (entities_of g l) popped e).1 (inl under)

    pub still-IsDone : (j : LabelId) → IsDone s j → IsDone after j
    still-IsDone j d e under = grows.grown e (d e under)

    -- A queued label is done now, or still queued.
    pub moves : (j : LabelId) (h : ℕ) → In (j, h) s.queue → In (j, h) after.queue ⊎ IsDone after j
    moves j h q = elim (subst (In (j, h)) front q) [
      | inl p ↦ inr (subst (IsDone after) (sym (ap (λ (x : LabelId × ℕ). x.0) p)) front-IsDone)
      | inr r ↦ inl (Grows-queue max_hops c popped after (j, h) grows r)
    ]

    pub after-IsFull : Levels c rest → IsFull c after
    after-IsFull levels = record {
      reach = λ h j le r. elim (i.reach h j le r) [
        | inl q ↦ moves j c q
        | inr d ↦ inr (still-IsDone j d)
      ];
      waiting = λ j v. elim (grows.fresh j v) [
        | inr q ↦ inl (suc c, q)
        | inl old ↦ elim (i.waiting j old) [
          | inl (h, q) ↦ elim (moves j h q) [ inl q' ↦ inl (h, q') | inr d ↦ inr d ]
          | inr d ↦ inr (still-IsDone j d)
        ]
      ];
      closed = λ lt. offer_entities-Closed g max_hops c (entities_of g l) popped lt (i.closed lt);
      levels = subst (Levels c) (sym grows.added.1) (
          Levels-append c rest grows.added.0 levels (
            All-of_In (λ x. x.1 ≡ suc c) grows.added.0
              (λ x q. (In_of_All _ grows.added.0 grows.added.2 x q).0)));
      near = λ j h q.
          elim ((In-append (j, h) rest grows.added.0).0 (subst (In (j, h)) grows.added.1 q)) [
            | inl old ↦ i.near j h (subst (In (j, h)) (sym front) (inr old))
            | inr new ↦
                let (e, lt) = In_of_All _ grows.added.0 grows.added.2 (j, h) new in omega arith
          ];
    }
