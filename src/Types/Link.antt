-- ===== src/Types/Link.antt =====
-- crates/atlas-types/src/lib.rs: `TemporalLink`, whose constructor has a debug assertion.
use atlas_hpc.Base.{ℕ, Bool, ◌&&◌, not, if◌then◌else◌}
use atlas_hpc.Base.Float.{Float}
use atlas_hpc.Base.Outcome.{Outcome, done, panic}
use atlas_hpc.Types.Label.{LabelId}

pub record TemporalLink (F : Type 0) : Type 0 where
  pub src : LabelId
  pub dst : LabelId
  pub p_value : F
  pub created_ns : ℕ
  pub correlation_abs : F

-- `TemporalLink::new`. The flag says whether the build has debug assertions.
unfoldable pub new_link :
    {F : Type 0} ⦃f : Float F⦄ → Bool → LabelId → LabelId → F → F → ℕ → Outcome (TemporalLink F)
new_link ⦃f⦄ debug src dst p_value correlation_abs created_ns =
    if debug && not (f.lt p_value (f.lit 5 2))
    then panic
    else done (record {
      src = src;
      dst = dst;
      p_value = p_value;
      created_ns = created_ns;
      correlation_abs = correlation_abs;
    })
