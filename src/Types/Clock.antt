-- ===== src/Types/Clock.antt =====
-- crates/atlas-types/src/lib.rs: `now_ns`.
use Prim.Native.String.{String}
use atlas_hpc.Base.{ℕ, ◌%◌, ◌^◌}
use atlas_hpc.Base.Result.{Result, ok, err}

-- The nanoseconds since the epoch, a `u128`, or the error of a clock that is set before it.
unfoldable pub now_ns : Result String ℕ → ℕ
now_ns (ok nanos) = nanos % 2 ^ 64
now_ns (err e) = 0
