-- ===== src/HotTier/Feed/Software.antt =====
-- crates/hot-tier/src/lib.rs: `SoftwareFeedAdapter`, an xorshift generator of prices. A remainder by
-- zero panics.
pub mod Live
use Prim.Native.Nat.{bit_xor}
use atlas_hpc.Base.{
  ℕ, zero, suc, ◌+◌, ◌*◌, ◌/◌, ◌%◌, ◌^◌, ◌≡◌, ◌≢◌, ◌≤◌, refl, sym, ap, subst, none, some, List, [],
  ◌∷◌, ◌==◌, nat_eq, length, get_elem?, get_elem?-eq-some, In, arith, inl, inr, if◌then◌else◌,
  nat_beq_iff,
}
use atlas_hpc.Base.Float.{Float}
use atlas_hpc.Base.Outcome.{Outcome, done, panic, ◌>>=◌}

pub record SoftwareFeedAdapter : Type 0 where
  pub entity_ids : List ℕ
  pub rng_state : ℕ

abbrev pub new : List ℕ → SoftwareFeedAdapter
new entity_ids = record { entity_ids = entity_ids; rng_state = 0xDEAD_BEEF_1234_5678 }

-- The three steps of xorshift64; a left shift drops what passes bit 63.
unfoldable pub xorshift : ℕ → ℕ
xorshift x0 =
    let x1 = bit_xor x0 (x0 * 2 ^ 13 % 2 ^ 64) in
    let x2 = bit_xor x1 (x1 / 2 ^ 7) in bit_xor x2 (x2 * 2 ^ 17 % 2 ^ 64)

-- The new state, which is the number drawn too.
unfoldable pub next_u64 : SoftwareFeedAdapter → SoftwareFeedAdapter × ℕ
next_u64 a = let x = xorshift a.rng_state in (record a { rng_state = x }, x)

-- `self.entity_ids[idx]`, for `idx` a remainder by the length.
unfoldable pub pick : ℕ → List ℕ → Outcome ℕ
pick x ids =
    if length ids == 0
    then panic
    else elim (get_elem? ids (x % length ids)) [ none ↦ panic | some id ↦ done id ]

get_elem?-In : {A : Type 0} (xs : List A) (i : ℕ) (x : A) → get_elem? xs i ≡ some x → In x xs
get_elem?-In [] i x h = absurd (ground arith)
get_elem?-In (y ∷ ys) zero x h = inl cc
get_elem?-In (y ∷ ys) (suc i) x h = inr (get_elem?-In ys i x h)

pick_lem : (x : ℕ) (ids : List ℕ) → length ids ≢ 0 → (id : ℕ) × (pick x ids ≡ done id) × In id ids
unfolding pick
pick_lem x ids some_ids =
    let (id, found) = get_elem?-eq-some ids (x % length ids) (ground arith) in
    (id, ground (arith, nat_beq_iff (length ids) 0), get_elem?-In ids (x % length ids) id found)

module _ {D : Type 0} ⦃d : Float D⦄ where
  -- The closure of `map`, run `n` times.
  unfoldable pub ticks : ℕ → SoftwareFeedAdapter → Outcome (SoftwareFeedAdapter × List (ℕ × D))
  ticks zero a = done (a, [])
  ticks (suc n) a = do
    let drawn = next_u64 a
    id ← pick drawn.1 a.entity_ids
    let priced = next_u64 drawn.0
    let price = d.add (d.lit 10 0) (d.div (d.of_ℕ (priced.1 % 999_000)) (d.lit 100 0))
    rest ← ticks n priced.0
    done (rest.0, (id, price) ∷ rest.1)

  unfoldable pub poll_ticks : SoftwareFeedAdapter → Outcome (SoftwareFeedAdapter × List (ℕ × D))
  poll_ticks a = let sized = next_u64 a in ticks (sized.1 % 8 + 1) sized.0

  -- Whatever was picked: as many ticks as asked for, all of entities of the adapter.
  ticks_lem :
      (n : ℕ) (a : SoftwareFeedAdapter)
      → length a.entity_ids ≢ 0
      → (a' : SoftwareFeedAdapter) × (out : List (ℕ × D)) × (ticks n a ≡ done (a', out))
        × (a'.entity_ids ≡ a.entity_ids)
        × (length out ≡ n)
        × ((p : ℕ × D) → In p out → In p.0 a.entity_ids)
  unfolding ticks next_u64
  ticks_lem zero a h = (a, [], refl, refl, refl, λ p i. absurd i)
  ticks_lem (suc n) a h =
      let x = xorshift a.rng_state in
      let (id, picked, i) = pick_lem x a.entity_ids h in
      let next : SoftwareFeedAdapter = record a { rng_state = xorshift x } in
      let (a', out, ran, same, count, all) = ticks_lem n next h in
      let price = d.add (d.lit 10 0) (d.div (d.of_ℕ (xorshift x % 999_000)) (d.lit 100 0)) in
      (
        a',
        (id, price) ∷ out,
        rw picked (rw ran refl),
        same,
        omega (arith, count),
        λ p j. elim j [
          | inl here ↦ subst (λ (k : ℕ). In k a.entity_ids) (sym (ap (λ (q : ℕ × D). q.0) here)) i
          | inr later ↦ all p later
        ],
      )

  -- If the adapter has an entity, `poll_ticks` returns from one to eight ticks, all of them of its
  -- entities, which stay as they are.
  pub poll_ticks_lem :
      (a : SoftwareFeedAdapter)
      → length a.entity_ids ≢ 0
      → (a' : SoftwareFeedAdapter) × (out : List (ℕ × D)) × (poll_ticks a ≡ done (a', out))
        × (a'.entity_ids ≡ a.entity_ids)
        × (1 ≤ length out)
        × (length out ≤ 8)
        × ((p : ℕ × D) → In p out → In p.0 a.entity_ids)
  unfolding poll_ticks next_u64
  poll_ticks_lem a h =
      let x = xorshift a.rng_state in
      let next : SoftwareFeedAdapter = record a { rng_state = x } in
      let (a', out, ran, same, count, all) = ticks_lem (x % 8 + 1) next h in
      (a', out, ran, same, omega (arith, count), omega (arith, count), all)
