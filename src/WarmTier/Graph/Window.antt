-- ===== src/WarmTier/Graph/Window.antt =====
-- `record_return` keeps the last 256 returns of each entity, and nothing else.
use mathlib.Core.Option
use mathlib.Core.List.{append_assoc, append-nil}
use native.Mathlib.Nat.{zero-sub}
use atlas_hpc.Base.{
  ℕ, suc, ◌-◌, ◌≤◌, ◌≡◌, refl, sym, ap, ◌∙◌, List, [], ◌∷◌, ◌++◌, ◌==◌, nat_eq, length, drop,
  length-drop, length-append, if◌then◌else◌, Bool-cases, inl, inr, arith, nat_beq_iff, leb,
}
use atlas_hpc.Base.Dict
use atlas_hpc.Base.Dict.{Dict}
use atlas_hpc.WarmTier.Graph.{GraphInner, push_sample, record_return}

module _ {D : Type 0} where
  -- The last `n` elements.
  abbrev pub last : ℕ → List D → List D
  last n xs = drop (length xs - n) xs

  last_whole : (n : ℕ) (xs : List D) → length xs ≤ n → last n xs ≡ xs
  last_whole n xs h = let e : length xs - n ≡ 0 = omega arith in rw e

  last-cons : (n : ℕ) (x : D) (xs : List D) → n ≤ length xs → last n (x ∷ xs) ≡ last n xs
  last-cons n x xs h = let e : suc (length xs) - n ≡ suc (length xs - n) = omega arith in rw e

  -- Cutting early changes nothing.
  last-append : (n : ℕ) (xs ys : List D) → last n (last n xs ++ ys) ≡ last n (xs ++ ys)
  last-append n [] ys = rw zero-sub
  last-append n (x ∷ xs) ys = elim (Bool-cases (leb n (length xs))) [
    | inl long ↦
        let shorter = last-cons n x xs (ground arith) in
        let whole = last-cons n x (xs ++ ys) (ground (arith, length-append xs ys)) in
        rw (shorter, whole) (last-append n xs ys)
    | inr short ↦ rw (last_whole n (x ∷ xs) (ground arith))
  ]

  length-last : (n : ℕ) (xs : List D) → length (last n xs) ≤ n
  length-last n xs = omega (arith, length-drop (length xs - n) xs)

  push_sample-eq-last :
      (x : D) (xs : List D) → length xs ≤ 256 → push_sample x xs ≡ last 256 (xs ++ x ∷ [])
  push_sample-eq-last x [] h = refl
  push_sample-eq-last x (y ∷ ys) h = elim (Bool-cases (leb 256 (length (ys ++ x ∷ [])))) [
    | inl full ↦
        let e : length (ys ++ x ∷ []) ≡ 256 = ground (arith, length-append ys (x ∷ [])) in rw e
    | inr room ↦ rw (last_whole 256 (y ∷ ys ++ x ∷ []) (ground arith)) (ground arith)
  ]

module _ {D : Type 0} where
  -- The returns that the calls record for `e`, in order.
  abbrev pub returns_of : ℕ → List (ℕ × D) → List D
  returns_of e [] = []
  returns_of e ((k, ret) ∷ calls) = if k == e then ret ∷ returns_of e calls else returns_of e calls

  returns_of-cons :
      (e k : ℕ) (ret : D) (calls : List (ℕ × D))
      → returns_of e ((k, ret) ∷ calls) ≡ returns_of e ((k, ret) ∷ []) ++ returns_of e calls
  returns_of-cons e k ret calls = ground arith

module _ {F D : Type 0} where
  abbrev pub samples_of : GraphInner F D → ℕ → List D
  samples_of g e = Option.get_or (Dict.lookup e g.return_samples) []

  pub record_all : List (ℕ × D) → GraphInner F D → GraphInner F D
  record_all [] g = g
  record_all ((e, ret) ∷ calls) g = record_all calls (record_return e ret g)

  abbrev pub IsBounded : GraphInner F D → Type 0
  IsBounded g = (e : ℕ) → length (samples_of g e) ≤ 256

  samples_after :
      (k : ℕ) (ret : D) (g : GraphInner F D)
      → IsBounded g
      → (e : ℕ)
      → samples_of (record_return k ret g) e
        ≡ last 256 (samples_of g e ++ returns_of e ((k, ret) ∷ []))
  unfolding record_return
  samples_after k ret g h e = elim (Bool-cases (k == e)) [
    | inl same ↦
        let e' : k ≡ e = (nat_beq_iff k e).0 same in
        ground (
          arith,
          Dict.lookup-upsert k [] (push_sample ret) e g.return_samples,
          push_sample-eq-last ret (samples_of g e) (h e),
          e',
        )
    | inr other ↦ ground (
      arith,
      Dict.lookup-upsert k [] (push_sample ret) e g.return_samples,
      append-nil (samples_of g e),
      last_whole 256 (samples_of g e) (h e),
    )
  ]

  after-IsBounded :
      (k : ℕ) (ret : D) (g : GraphInner F D) → IsBounded g → IsBounded (record_return k ret g)
  after-IsBounded k ret g h e =
      rw (samples_after k ret g h e)
        (length-last 256 (samples_of g e ++ returns_of e ((k, ret) ∷ [])))

  -- If no entity has more than 256 samples, then after any calls of `record_return` the samples of
  -- every entity are the last 256 of what it had and of what was recorded for it, in order, and
  -- never more than 256.
  pub record_all_lem :
      (calls : List (ℕ × D)) (g : GraphInner F D)
      → IsBounded g
      → (e : ℕ)
      → (samples_of (record_all calls g) e ≡ last 256 (samples_of g e ++ returns_of e calls))
        × (length (samples_of (record_all calls g) e) ≤ 256)
  unfolding record_all
  record_all_lem [] g h e =
      (rw (append-nil (samples_of g e), last_whole 256 (samples_of g e) (h e)), h e)
  record_all_lem ((k, ret) ∷ calls) g h e =
      let old = samples_of g e in
      let one = returns_of e ((k, ret) ∷ []) in
      let rest = returns_of e calls in
      let (reads, bound) =
        record_all_lem calls (record_return k ret g) (after-IsBounded k ret g h) e in
      (
        reads
            ∙ ap (λ xs. last 256 (xs ++ rest)) (samples_after k ret g h e)
            ∙ last-append 256 (old ++ one) rest
            ∙ ap (last 256)
                (append_assoc old one rest ∙ ap (◌++◌ old) (sym (returns_of-cons e k ret calls))),
        bound,
      )
