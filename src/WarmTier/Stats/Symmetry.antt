-- ===== src/WarmTier/Stats/Symmetry.antt =====
-- The correlation of two series does not depend on which is given first, and reads only as much of
-- the longer one as the shorter one has samples.
use native.Mathlib.Nat.{min_comm}
use atlas_hpc.Base.{
  ℕ, zero, suc, ◌≤◌, ◌≡◌, refl, ap, List, [], ◌∷◌, ◌++◌, length, take, min, arith, length-append,
}
use atlas_hpc.Base.Float.{Float}
use atlas_hpc.WarmTier.Stats.{Moments, sum_from, mean, moments, conclude, pearson_with_pvalue}

abbrev flipped : {D : Type 0} → Moments D → Moments D
flipped m = record { cov = m.cov; var_x = m.var_y; var_y = m.var_x }

abbrev none_yet : {D : Type 0} ⦃d : Float D⦄ → Moments D
none_yet ⦃d⦄ = record { cov = d.lit 0 0; var_x = d.lit 0 0; var_y = d.lit 0 0 }

module _ {D : Type 0} ⦃d : Float D⦄ (mul_comm : (a b : D) → d.mul a b ≡ d.mul b a) where
  moments-flipped :
      (mean_x mean_y : D) (x y : List D) (m : Moments D)
      → moments mean_y mean_x y x (flipped m) ≡ flipped (moments mean_x mean_y x y m)
  unfolding moments
  moments-flipped mean_x mean_y [] [] m = refl
  moments-flipped mean_x mean_y [] (b ∷ y) m = refl
  moments-flipped mean_x mean_y (a ∷ x) [] m = refl
  moments-flipped mean_x mean_y (a ∷ x) (b ∷ y) m =
      rw (mul_comm (d.sub b mean_y) (d.sub a mean_x)) (moments-flipped mean_x mean_y x y _)

  conclude-flipped : (n : ℕ) (m : Moments D) → conclude n (flipped m) ≡ conclude n m
  unfolding conclude
  conclude-flipped n m = ground (arith, mul_comm (d.sqrt m.var_y) (d.sqrt m.var_x))

  -- If `f64` multiplication commutes, `pearson_with_pvalue` gives the same `r` and p-value, or
  -- `None`, for two series in either order.
  pub pearson_symmetric : (x y : List D) → pearson_with_pvalue x y ≡ pearson_with_pvalue y x
  unfolding pearson_with_pvalue
  pearson_symmetric x y =
      let n = min (length x) (length y) in
      let flip = moments-flipped (mean n x) (mean n y) x y none_yet in
      let same = conclude-flipped n (moments (mean n x) (mean n y) x y none_yet) in
      rw (min_comm (length y) (length x)) (ground (arith, flip, same))

module _ {D : Type 0} ⦃d : Float D⦄ where
  -- What the longer series has beyond the length of the shorter one is never read.
  moments_prefix :
      (mean_x mean_y : D) (x more y : List D) (m : Moments D)
      → length y ≤ length x
      → moments mean_x mean_y (x ++ more) y m ≡ moments mean_x mean_y x y m
  unfolding moments
  moments_prefix mean_x mean_y [] [] [] m h = refl
  moments_prefix mean_x mean_y [] (c ∷ more) [] m h = refl
  moments_prefix mean_x mean_y [] more (b ∷ y) m h = absurd (omega arith)
  moments_prefix mean_x mean_y (a ∷ x) more [] m h = refl
  moments_prefix mean_x mean_y (a ∷ x) more (b ∷ y) m h =
      moments_prefix mean_x mean_y x more y _ (omega arith)

  take_prefix : (n : ℕ) (x more : List D) → n ≤ length x → take n (x ++ more) ≡ take n x
  take_prefix zero x more h = refl
  take_prefix (suc n) [] more h = absurd (omega arith)
  take_prefix (suc n) (a ∷ x) more h = ap (◌∷◌ a) (take_prefix n x more (omega arith))

  mean_prefix : (n : ℕ) (x more : List D) → n ≤ length x → mean n (x ++ more) ≡ mean n x
  unfolding mean
  mean_prefix n x more h =
      ap (λ xs. d.div (sum_from (d.lit 0 0) xs) (d.of_ℕ n)) (take_prefix n x more h)

  -- If the first series is at least as long as the second, whatever is recorded after it (its newer
  -- returns) changes neither `r` nor the p-value.
  pub pearson_prefix :
      (x more y : List D)
      → length y ≤ length x
      → pearson_with_pvalue (x ++ more) y ≡ pearson_with_pvalue x y
  unfolding pearson_with_pvalue
  pearson_prefix x more y h =
      let n = min (length x) (length y) in
      let shorter : min (length (x ++ more)) (length y) ≡ n = omega (arith, length-append x more) in
      let same_mean = mean_prefix n x more (omega arith) in
      let rest = moments_prefix (mean n x) (mean n y) x more y none_yet h in
      ground (arith, shorter, same_mean, rest)
