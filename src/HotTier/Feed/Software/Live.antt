-- ===== src/HotTier/Feed/Software/Live.antt =====
-- The generator of `SoftwareFeedAdapter` (crates/hot-tier/src/lib.rs) never reaches 0, where it
-- would stay.
use Prim.Native.Nat.{bit_xor, bit_xor-bitwise, digits, differ}
use atlas_hpc.Base.{
  ℕ, zero, suc, ◌+◌, ◌*◌, ◌/◌, ◌%◌, ◌^◌, ◌≡◌, ◌≢◌, ◌≤◌, ◌<◌, sym, ◌∙◌, ap, subst, List, arith,
}
use atlas_hpc.Base.Outcome.{done, >>=-eq-done}
use atlas_hpc.Base.Float.{Float}
use atlas_hpc.HotTier.Feed.Software.{
  SoftwareFeedAdapter, xorshift, next_u64, pick, ticks, poll_ticks,
}

differ_zero : (x y : ℕ) → differ x y ≡ 0 → x ≡ y
differ_zero zero y h = sym h
differ_zero (suc x) zero h = absurd (omega arith)
differ_zero (suc x) (suc y) h = ap suc (differ_zero x y h)

differ_le : (x y : ℕ) → x ≤ 1 → y ≤ 1 → differ x y ≤ 1
differ_le zero y h k = k
differ_le (suc x) zero h k = h
differ_le (suc zero) (suc zero) h k = omega arith
differ_le (suc (suc x)) (suc y) h k = absurd (omega arith)
differ_le (suc zero) (suc (suc y)) h k = absurd (omega arith)

-- The exclusive or, on fuel.
abbrev xor_digits : ℕ → ℕ → ℕ → ℕ
xor_digits n a b = digits (λ b. b) differ n a b

xor_digits-zero : (n a b : ℕ) → a ≤ n → xor_digits n a b ≡ 0 → a ≡ b
xor_digits-zero zero zero b le h = sym h
xor_digits-zero zero (suc a) b le h = absurd (omega arith)
xor_digits-zero (suc n) zero b le h = sym h
xor_digits-zero (suc n) (suc a) b le h =
    let rest = xor_digits-zero n (suc a / 2) (b / 2) (omega arith) (omega arith) in
    let last = differ_zero (suc a % 2) (b % 2) (omega arith) in omega arith

abbrev power : ℕ → ℕ
power zero = 1
power (suc k) = power k * 2

xor_digits-lt : (k n a b : ℕ) → a < power k → b < power k → xor_digits n a b < power k
xor_digits-lt k zero a b below below' = below'
xor_digits-lt k (suc n) zero b below below' = below'
xor_digits-lt zero (suc n) (suc a) b below below' = absurd (omega arith)
xor_digits-lt (suc k) (suc n) (suc a) b below below' =
    let rest = xor_digits-lt k n (suc a / 2) (b / 2) (omega arith) (omega arith) in
    let last = differ_le (suc a % 2) (b % 2) (omega arith) (omega arith) in omega arith

bit_xor-zero : (a b : ℕ) → bit_xor a b ≡ 0 → a ≡ b
bit_xor-zero a b h = xor_digits-zero a a b (omega arith) (sym (bit_xor-bitwise a b) ∙ h)

bit_xor-lt : (a b : ℕ) → a < 2 ^ 64 → b < 2 ^ 64 → bit_xor a b < 2 ^ 64
bit_xor-lt a b below below' =
    subst (λ x. x < 2 ^ 64) (sym (bit_xor-bitwise a b)) (xor_digits-lt 64 a a b below below')

abbrev pub IsLive : ℕ → Type 0
IsLive x = (x ≢ 0) × (x < 2 ^ 64)

-- From a state that is not 0, xorshift64 gives no 0, and 64 bits.
pub xorshift-IsLive : (x : ℕ) → IsLive x → IsLive (xorshift x)
unfolding xorshift
xorshift-IsLive x0 (nonzero, below) =
    let x1 = bit_xor x0 (x0 * 2 ^ 13 % 2 ^ 64) in
    let x2 = bit_xor x1 (x1 / 2 ^ 7) in
    let nonzero1 : x1 ≢ 0 = λ h. omega (arith, bit_xor-zero x0 (x0 * 2 ^ 13 % 2 ^ 64) h) in
    let below1 = bit_xor-lt x0 (x0 * 2 ^ 13 % 2 ^ 64) below (omega arith) in
    let nonzero2 : x2 ≢ 0 = λ h. omega (arith, bit_xor-zero x1 (x1 / 2 ^ 7) h) in
    let below2 = bit_xor-lt x1 (x1 / 2 ^ 7) below1 (omega arith) in
    (
      λ h. omega (arith, bit_xor-zero x2 (x2 * 2 ^ 17 % 2 ^ 64) h),
      bit_xor-lt x2 (x2 * 2 ^ 17 % 2 ^ 64) below2 (omega arith),
    )

module _ {D : Type 0} ⦃d : Float D⦄ where
  ticks-IsLive :
      (n : ℕ) (a a' : SoftwareFeedAdapter) (out : List (ℕ × D))
      → IsLive a.rng_state
      → ticks n a ≡ done (a', out)
      → IsLive a'.rng_state
  unfolding ticks next_u64
  ticks-IsLive zero a a' out live h =
      let e : a ≡ a' = cc in subst (λ (x : SoftwareFeedAdapter). IsLive x.rng_state) e live
  ticks-IsLive (suc n) a a' out live h =
      let x = xorshift a.rng_state in
      let next : SoftwareFeedAdapter = record a { rng_state = xorshift x } in
      let (id, picked, h1) = >>=-eq-done (pick x a.entity_ids) _ h in
      let ((a1, rest), ran, h2) = >>=-eq-done (ticks n next) _ h1 in
      let e : a1 ≡ a' = cc in
      let later = xorshift-IsLive x (xorshift-IsLive a.rng_state live) in
      subst (λ (z : SoftwareFeedAdapter). IsLive z.rng_state) e
        (ticks-IsLive n next a1 rest later ran)

  -- If the state of the generator is not 0 and has 64 bits, this holds again after `poll_ticks`.
  pub poll_ticks-IsLive :
      (a a' : SoftwareFeedAdapter) (out : List (ℕ × D))
      → IsLive a.rng_state
      → poll_ticks a ≡ done (a', out)
      → (a'.rng_state ≢ 0) × (a'.rng_state < 2 ^ 64)
  unfolding poll_ticks next_u64
  poll_ticks-IsLive a a' out live h =
      let x = xorshift a.rng_state in
      ticks-IsLive (x % 8 + 1) (record a { rng_state = x }) a' out
        (xorshift-IsLive a.rng_state live) h
