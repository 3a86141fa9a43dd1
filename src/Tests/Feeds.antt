-- ===== src/Tests/Feeds.antt =====
-- The feeds on concrete inputs.
use Prim.Native.String.{String}
use atlas_hpc.Base.{
  ℕ, zero, suc, ◌%◌, ◌≡◌, ◌≢◌, ◌<◌, ◌^◌, ◌≤◌, refl, true, false, some, List, [], ◌∷◌, In, length,
  arith, ◌⊎◌, nat_eq,
}
use atlas_hpc.Base.Fixed.{ℤ, pos, fixed}
use atlas_hpc.Base.Outcome.{done, panic}
use atlas_hpc.Base.Result.{ok}
use atlas_hpc.HotTier.DashMap.{Table, table_laws}
use atlas_hpc.HotTier.Feed.Software.{SoftwareFeedAdapter, xorshift, poll_ticks, poll_ticks_lem}
use atlas_hpc.HotTier.Feed.Software
use atlas_hpc.HotTier.Feed.Software.Live.{poll_ticks-IsLive}
use atlas_hpc.HotTier.Feed.Binance
use atlas_hpc.HotTier.Feed.Binance.{
  Wire, Moment, Message, Poll, polls, text, ping, close, quote, process_batch,
}
use atlas_hpc.HotTier.Feed.Binance.Session.{heard_in, over_in, Quotes, run_lem}
use atlas_hpc.HotTier.Feed.Binance.Panics.{run_zero}
use atlas_hpc.HotTier.Store
use atlas_hpc.HotTier.Store.Laws.{view, IsKeyed}
use atlas_hpc.Types.Entity.{WeightedEntity}
use atlas_hpc.Tests.Stores.{store_map, only_oil}

-- The first number of xorshift64 from the state 1.
first_draw : xorshift 1 ≡ 0x40822041
unfolding xorshift
first_draw = refl

poll_ticks_lem_example :
    let a = Software.new (3 ∷ 5 ∷ []) in
    (a' : SoftwareFeedAdapter) × (out : List (ℕ × ℤ)) × (poll_ticks a ≡ done (a', out))
    × (a'.entity_ids ≡ a.entity_ids)
    × (1 ≤ length out)
    × (length out ≤ 8)
    × ((p : ℕ × ℤ) → In p out → In p.0 a.entity_ids)
poll_ticks_lem_example = poll_ticks_lem (Software.new (3 ∷ 5 ∷ [])) (omega arith)

-- A wire on which every text is an array of one item with the same symbol and price.
abbrev wire : Wire ℤ ℕ
wire = record {
  array = λ json_str. some (0 ∷ []);
  sym = λ item. some "BTCUSDT";
  price_str = λ item. some "42";
  parse = λ price_str. some (pos 42_000_000);
  hash = λ sym. 123_456;
}

abbrev moments : ℕ → Moment ℤ
moments k = record { ticked_at = k; weighed_at = k; flagged_at = k; draw = pos 100_000 }

-- The generator in the state 1, with one entity.
abbrev small : SoftwareFeedAdapter
small = record { entity_ids = 3 ∷ []; rng_state = 1 }

polled : (a' : SoftwareFeedAdapter) × (out : List (ℕ × ℤ)) × (poll_ticks small ≡ done (a', out))
polled = let all = poll_ticks_lem {D = ℤ} small (omega arith) in (all.0, all.1, all.2)

poll_ticks-IsLive_example : (polled.0.rng_state ≢ 0) × (polled.0.rng_state < 2 ^ 64)
poll_ticks-IsLive_example =
    poll_ticks-IsLive small polled.0 polled.1 (omega arith, omega arith) polled.2

-- A ping, a quote, a close, and texts that come too late.
abbrev stream : ℕ → Poll
stream zero = some (ok ping)
stream (suc zero) = some (ok (text "[..]"))
stream (suc (suc zero)) = some (ok close)
stream (suc (suc (suc k))) = some (ok (text "late"))

-- The close is the third poll: after two the session still reads, and after five it has returned.
session_over : (over_in (ok stream) 2 ≡ false) × (over_in (ok stream) 5 ≡ true)
unfolding polls
session_over = (refl, refl)

run_lem_example :
    (m' : Table (WeightedEntity ℤ ℤ)) × (Binance.run store_map wire 10_000
        (λ k. moments)
        (ok stream)
        5
        only_oil
      ≡ done (record { store = m'; returned = over_in (ok stream) 5 }))
    × ((j : ℕ) → Store.contains store_map j only_oil ≡ true → Store.contains store_map j m' ≡ true)
    × (IsKeyed store_map (view store_map only_oil) → IsKeyed store_map (view store_map m'))
    × (heard_in (ok stream) 5 ≡ [] → m' ≡ only_oil)
    × ((x symbol : String) (price : ℤ)
        → In x (heard_in (ok stream) 5)
        → Quotes store_map wire 10_000 x symbol price
        → Store.contains store_map (wire.hash symbol % 10_000) m' ≡ true)
run_lem_example =
    run_lem store_map wire 10_000 table_laws (omega arith) (λ k. moments) (ok stream) 5 only_oil

run_zero_example :
    ((Binance.run store_map wire 0 (λ k. moments) (ok stream) 5 only_oil ≡ panic)
      × (x : String) × (symbol : String) × (price : ℤ) × In x (heard_in (ok stream) 5)
      × Quotes store_map wire 0 x symbol price)
    ⊎ ((Binance.run store_map wire 0 (λ k. moments) (ok stream) 5 only_oil
          ≡ done (record { store = only_oil; returned = over_in (ok stream) 5 }))
        × ((x symbol : String) (price : ℤ)
            → In x (heard_in (ok stream) 5)
            → ¬ Quotes store_map wire 0 x symbol price))
run_zero_example = run_zero store_map wire (λ k. moments) (ok stream) 5 only_oil
