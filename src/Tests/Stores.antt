-- ===== src/Tests/Stores.antt =====
-- `HotStore` and the served store on concrete calls.
use mathlib.Core.Option
use mathlib.Core.Bool.{xor}
use atlas_hpc.Base.{
  ℕ, ◌≡◌, ◌≤◌, ◌<◌, ◌+◌, ◌*◌, nat_beq_iff, ap, refl, Bool, true, false, Option, some, List, [], ◌∷◌,
  arith,
}
use atlas_hpc.Base.Dict
use atlas_hpc.Base.Fixed.{ℤ, pos, fixed}
use atlas_hpc.HotTier.DashMap.{DashMap, Table, table_map, table_laws}
use atlas_hpc.HotTier.Store
use atlas_hpc.HotTier.Store.Laws.{
  Call, insert_call, weight_call, trigger_call, price_call, perform, run, view, promised_all,
  IsKeyed, run-view,
}
use atlas_hpc.Types.Entity.{WeightedEntity}
use atlas_hpc.Harness.{
  Round, seed_entities, synthetic_feed, get_alpha_handler, success, miss, entity_count,
}
use atlas_hpc.Harness.Served.{Reading, unread, after_rounds, alpha_answers}

abbrev Entity : Type 0
Entity = WeightedEntity ℤ ℤ

abbrev pub store_map : DashMap (WeightedEntity ℤ ℤ) (Table (WeightedEntity ℤ ℤ))
store_map = table_map

abbrev pub oil : WeightedEntity ℤ ℤ
oil = record {
  entity_id = 7;
  latest_price = pos 80_000_000;
  volatility_score = pos 0;
  importance_weight = pos 500_000;
  causal_trigger_bit = false;
  pad = [];
  last_updated_ns = 0;
  reserved = [];
}

-- An insert, a weight of 0.5 · 0.9 + 200 · 0.1, a trigger and a price.
abbrev calls : List (Call ℤ ℤ)
calls =
    insert_call oil
    ∷ weight_call 11 7 (pos 200_000_000) (pos 900_000) (pos 100_000)
    ∷ trigger_call 12 7 true
    ∷ price_call 13 8 (pos 1)
    ∷ []

abbrev pub only_oil : Table (WeightedEntity ℤ ℤ)
only_oil = store_map.insert 7 oil store_map.empty

after_calls :
    Option.map {B = ℤ × Bool × ℕ}
      (λ e. (e.importance_weight, e.causal_trigger_bit, e.last_updated_ns))
      (Store.get store_map 7 (run store_map calls store_map.empty))
    ≡ some (pos 20_450_000, true, 12)
unfolding run perform xor Store.get Store.insert Store.update_weight Store.tick_price
    Store.set_causal_trigger Dict.lookup Dict.insert Dict.upsert Dict.alter
after_calls = refl

run-view_example :
    view store_map (run store_map calls only_oil) ≡ promised_all calls (view store_map only_oil)
run-view_example = run-view store_map table_laws calls only_oil

only_oil-IsKeyed : IsKeyed store_map (view store_map only_oil)
unfolding view Store.get Dict.lookup Dict.insert Dict.upsert
only_oil-IsKeyed j e p = ground (
  arith,
  nat_beq_iff j 7,
  ap (λ (x : Option (WeightedEntity ℤ ℤ)). Option.map (λ y. y.entity_id) x) p,
)

abbrev oil_after : WeightedEntity ℤ ℤ
oil_after = record oil {
  importance_weight = pos 20_450_000;
  causal_trigger_bit = true;
  last_updated_ns = 12;
}

found_after : view store_map (run store_map calls only_oil) 7 ≡ some oil_after
unfolding run perform xor view Store.get Store.insert Store.update_weight Store.tick_price
    Store.set_causal_trigger Dict.lookup Dict.insert Dict.upsert Dict.alter
found_after = refl

only_oil-contains : Store.contains store_map 7 only_oil ≡ true
unfolding Store.contains Dict.lookup Dict.insert Dict.upsert
only_oil-contains = refl

abbrev rounds : ℕ → Round
rounds k = record { ticked_at = 3 * k; weighed_at = 3 * k + 1; flagged_at = 3 * k + 2 }

alpha_answers_example :
    let m =
      synthetic_feed store_map rounds 5 0xDEAD_BEEF_1234_5678
        (seed_entities store_map entity_count store_map.empty) in
    let r : Reading ℤ = after_rounds 42 rounds 5 0xDEAD_BEEF_1234_5678 unread in
    (42 < 10_000
      → get_alpha_handler store_map 42 m ≡ success 42 r.weight r.causal_trigger r.timestamp_ns)
    × (10_000 ≤ 42 → get_alpha_handler store_map 42 m ≡ miss 42)
alpha_answers_example = alpha_answers store_map table_laws rounds 5 0xDEAD_BEEF_1234_5678 42
