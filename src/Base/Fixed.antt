-- ===== src/Base/Fixed.antt =====
-- A concrete arithmetic for tests: signed numbers with six decimals. It stands for no type of the
-- program, and shows that what a theorem asks of the float operations can be met.
use Prim.Native.Nat.{ℕ, zero, suc, ◌+◌, ◌-◌, ◌*◌, ◌/◌, ◌^◌}
use mathlib.Core.Bool.{Bool, true, false, not, xor, ◌&&◌}
use atlas_hpc.Base.Tests.{ltb, leb, nat_beq, if◌then◌else◌}
use atlas_hpc.Base.Float.{Float, Narrow}

-- `negsuc n` is -(n + 1).
pub data ℤ : Type 0 where
  pos : ℕ → ℤ
  negsuc : ℕ → ℤ

abbrev pub is_negative : ℤ → Bool
is_negative (pos n) = false
is_negative (negsuc n) = true

abbrev pub magnitude : ℤ → ℕ
magnitude (pos n) = n
magnitude (negsuc n) = suc n

abbrev pub signed : Bool → ℕ → ℤ
signed false n = pos n
signed true zero = pos 0
signed true (suc n) = negsuc n

abbrev pub pos_part : ℤ → ℕ
pos_part (pos n) = n
pos_part (negsuc n) = 0

abbrev pub neg_part : ℤ → ℕ
neg_part (pos n) = 0
neg_part (negsuc n) = suc n

-- a - b, as an integer.
abbrev pub sub_ℕ : ℕ → ℕ → ℤ
sub_ℕ a b = if leb b a then pos (a - b) else negsuc (b - a - 1)

abbrev pub ltb_ℤ : ℤ → ℤ → Bool
ltb_ℤ a b = ltb (pos_part a + neg_part b) (pos_part b + neg_part a)

abbrev scale : ℕ
scale = 1_000_000

-- The digits of the root, two bits of the square at a time.
root : ℕ → ℕ → ℕ
root zero n = 0
root (suc fuel) n =
    let r = 2 * root fuel (n / 4) in
    if nat_beq n 0 then 0 else if leb ((r + 1) * (r + 1)) n then r + 1 else r

-- (1 + x / 1024) ^ 1024, by ten squarings.
squared : ℕ → ℕ → ℕ
squared zero x = x
squared (suc n) x = squared n (x * x / scale)

unfoldable pub fixed_sqrt : ℤ → ℤ
unfolding root
fixed_sqrt a = pos (root 100 (pos_part a * scale))

unfoldable pub fixed_exp : ℤ → ℤ
unfolding squared
fixed_exp a = pos (squared 10 (scale + pos_part a / 1024))

instance abbrev pub fixed : Float ℤ
fixed = record {
  lit = λ m k. pos (m * scale / 10 ^ k);
  of_ℕ = λ n. pos (n * scale);
  add = λ a b. sub_ℕ (pos_part a + pos_part b) (neg_part a + neg_part b);
  sub = λ a b. sub_ℕ (pos_part a + neg_part b) (neg_part a + pos_part b);
  mul = λ a b. signed (xor (is_negative a) (is_negative b)) (magnitude a * magnitude b / scale);
  div = λ a b. signed (xor (is_negative a) (is_negative b)) (magnitude a * scale / magnitude b);
  neg = λ a. signed (not (is_negative a)) (magnitude a);
  abs = λ a. pos (magnitude a);
  sqrt = fixed_sqrt;
  exp = fixed_exp;
  lt = ltb_ℤ;
  le = λ a b. not (ltb_ℤ b a);
  eq = λ a b. not (ltb_ℤ a b) && not (ltb_ℤ b a);
  epsilon = pos 1;
}

instance abbrev pub fixed_narrow : Narrow ℤ ℤ
fixed_narrow = record { narrow = λ a. a }
