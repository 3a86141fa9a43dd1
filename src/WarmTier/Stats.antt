-- ===== src/WarmTier/Stats.antt =====
-- crates/warm-tier/src/lib.rs: `pearson_with_pvalue`, over the float operations of `f64`.
pub mod Symmetry
use atlas_hpc.Base.{
  ℕ, zero, suc, Bool, ◌||◌, Option, none, some, List, [], ◌∷◌, length, take, ltb, if◌then◌else◌,
  min,
}
use atlas_hpc.Base.Float.{Float}

-- `cov`, `var_x`, `var_y`.
pub record Moments (D : Type 0) : Type 0 where
  pub cov : D
  pub var_x : D
  pub var_y : D

module _ {D : Type 0} ⦃d : Float D⦄ where
  -- `iter().sum::<f64>()`.
  unfoldable pub sum_from : D → List D → D
  sum_from acc [] = acc
  sum_from acc (x ∷ xs) = sum_from (d.add acc x) xs

  -- The mean of `x[..n]`.
  unfoldable pub mean : ℕ → List D → D
  unfolding sum_from
  mean n x = d.div (sum_from (d.lit 0 0) (take n x)) (d.of_ℕ n)

  -- The loop over `i`: it ends with the shorter series.
  unfoldable pub moments : D → D → List D → List D → Moments D → Moments D
  moments mean_x mean_y [] y m = m
  moments mean_x mean_y (a ∷ x) [] m = m
  moments mean_x mean_y (a ∷ x) (b ∷ y) m =
      let dx = d.sub a mean_x in
      let dy = d.sub b mean_y in
      moments mean_x mean_y x y (record {
        cov = d.add m.cov (d.mul dx dy);
        var_x = d.add m.var_x (d.mul dx dx);
        var_y = d.add m.var_y (d.mul dy dy);
      })

  -- `f64::clamp`.
  unfoldable pub clamp : D → D → D → D
  clamp lo hi x = let x' = if d.lt x lo then lo else x in if d.lt hi x' then hi else x'

  -- From `r` and the number of samples to the p-value.
  unfoldable pub p_value_of : ℕ → D → D
  unfolding clamp
  p_value_of n r =
      let one = d.lit 1 0 in
      let r' = clamp (d.add (d.neg one) d.epsilon) (d.sub one d.epsilon) r in
      let t =
        d.div (d.mul r' (d.sqrt (d.sub (d.of_ℕ n) (d.lit 2 0))))
          (d.sqrt (d.sub one (d.mul r' r'))) in
      let abs_t = d.abs t in
      d.div (d.lit 2 0) (
        d.add one
          (d.exp (d.add (d.mul (d.lit 717 3) abs_t) (d.mul (d.mul (d.lit 416 3) abs_t) abs_t))))

  -- What follows the loop.
  unfoldable pub conclude : ℕ → Moments D → Option (D × D)
  conclude n m =
      if d.eq m.var_x (d.lit 0 0) || d.eq m.var_y (d.lit 0 0)
      then none
      else (let r = d.div m.cov (d.mul (d.sqrt m.var_x) (d.sqrt m.var_y)) in
          some (r, p_value_of n r))

  unfoldable pub pearson_with_pvalue : List D → List D → Option (D × D)
  pearson_with_pvalue x y =
      let n = min (length x) (length y) in
      if ltb n 3
      then none
      else conclude n (
          moments (mean n x) (mean n y) x y
            (record { cov = d.lit 0 0; var_x = d.lit 0 0; var_y = d.lit 0 0 }))
