-- ===== src/HotTier/Store.antt =====
-- crates/hot-tier/src/lib.rs: `HotStore`. `M` is the `DashMap` behind the `Arc`; the clock reading
-- of `now_ns` is an argument.
pub mod Laws
use mathlib.Core.Option
use atlas_hpc.Base.{ℕ, Bool, true, false, Option, none, some, ◌==◌, nat_eq}
use atlas_hpc.Base.Float.{Float}
use atlas_hpc.Base.Dict.{is_some}
use atlas_hpc.HotTier.DashMap.{DashMap, len as map_len}
use atlas_hpc.Types.Entity.{WeightedEntity, recalculate_weight}

-- What `update_weight` writes through the guard.
unfoldable pub reweigh :
    {F D : Type 0} ⦃f : Float F⦄ → ℕ → F → F → F → WeightedEntity F D → WeightedEntity F D
unfolding recalculate_weight
reweigh now surprise alpha beta e = record (recalculate_weight surprise alpha beta e) {
  last_updated_ns = now;
}

module _ {F D M : Type 0} (t : DashMap (WeightedEntity F D) M) where
  -- `with_capacity`: the capacity is a hint.
  unfoldable pub with_capacity : ℕ → M
  with_capacity capacity = t.empty

  -- The map after it, and the previous value.
  unfoldable pub insert : WeightedEntity F D → M → M × Option (WeightedEntity F D)
  insert entity m = (t.insert entity.entity_id entity m, t.get entity.entity_id m)

  unfoldable pub get : ℕ → M → Option (WeightedEntity F D)
  get entity_id m = t.get entity_id m

  -- `Some((old, new))`, or `None` for an entity that is not there.
  unfoldable pub update_weight : ⦃f : Float F⦄ → ℕ → ℕ → F → F → F → M → M × Option (F × F)
  unfolding reweigh
  update_weight now entity_id surprise alpha beta m = elim (t.get entity_id m) [
    | none ↦ (m, none)
    | some e ↦ (
      t.alter entity_id (reweigh now surprise alpha beta) m,
      some (e.importance_weight, (reweigh now surprise alpha beta e).importance_weight),
    )
  ]

  unfoldable pub set_causal_trigger : ℕ → ℕ → Bool → M → M
  set_causal_trigger now entity_id value =
      t.alter entity_id (λ e. record e { causal_trigger_bit = value; last_updated_ns = now })

  unfoldable pub tick_price : ℕ → ℕ → D → M → M
  tick_price now entity_id price =
      t.alter entity_id (λ e. record e { latest_price = price; last_updated_ns = now })

  unfoldable pub len : M → ℕ
  len m = map_len t m

  unfoldable pub is_empty : M → Bool
  is_empty m = map_len t m == 0

  unfoldable pub contains : ℕ → M → Bool
  contains entity_id m = is_some (t.get entity_id m)
