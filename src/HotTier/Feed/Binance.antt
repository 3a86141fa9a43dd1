-- ===== src/HotTier/Feed/Binance.antt =====
-- crates/hot-tier/src/binance.rs: `BinanceFeedAdapter`. The stream that `connect_async` gives is what
-- each poll of `next` yields, and need not end: the adapter is run for a number of polls, and then
-- has returned or still reads.
pub mod Stored
pub mod Session
pub mod Panics
use Prim.Native.String.{String}
use mathlib.Core.Option
use atlas_hpc.Base.{
  ℕ, zero, suc, ◌%◌, Bool, true, false, Option, none, some, List, [], ◌∷◌, ◌==◌, nat_eq,
  if◌then◌else◌,
}
use atlas_hpc.Base.Float.{Float}
use atlas_hpc.Base.Outcome.{Outcome, done, panic, out_of_fuel, ◌>>=◌}
use atlas_hpc.Base.Result.{Result, ok, err}
use atlas_hpc.HotTier.DashMap.{DashMap}
use atlas_hpc.HotTier.Store
use atlas_hpc.Types.Entity.{WeightedEntity, new}

-- What `serde_json`, `str::parse` and `DefaultHasher` make of a text: the items of a JSON array, the
-- texts of the fields "s" and "c", a price, and a hash.
pub record Wire (D V : Type 0) : Type 0 where
  pub array : String → Option (List V)
  pub sym : V → Option String
  pub price_str : V → Option String
  pub parse : String → Option D
  pub hash : String → ℕ

-- The clock, and the draw of `fastrand::f32`, for one item.
pub record Moment (F : Type 0) : Type 0 where
  pub ticked_at : ℕ
  pub weighed_at : ℕ
  pub flagged_at : ℕ
  pub draw : F

-- What the stream yields, `tungstenite::Message`; only a text is looked into.
pub data Message : Type 0 where
  text : String → Message
  binary : Message
  ping : Message
  pong : Message
  close : Message
  frame : Message

-- What one poll of `read.next()` yields: `none` once the stream has ended.
abbrev pub Poll : Type 0
Poll = Option (Result String Message)

-- The first `n` polls of a stream.
unfoldable pub polls : (ℕ → Poll) → ℕ → List Poll
polls stream zero = []
polls stream (suc n) = stream 0 ∷ polls (λ k. stream (suc k)) n

-- Where `run` stands after some polls: the store, and whether it has returned.
pub record Progress (M : Type 0) : Type 0 where
  pub store : M
  pub returned : Bool

module _ {F D V M : Type 0} ⦃f : Float F⦄ ⦃d : Float D⦄ (t : DashMap (WeightedEntity F D) M)
    (wire : Wire D V) (max_entities : ℕ) where
  -- The two `if let`s.
  unfoldable pub quote : V → Option (String × D)
  quote item = elim (wire.sym item) [
    | none ↦ none
    | some sym ↦ Option.map (λ price. (sym, price)) (Option.bind (wire.price_str item) wire.parse)
  ]

  -- What is done with a quote, once its id is there.
  unfoldable pub register : Moment F → ℕ → D → M → M
  register now entity_id price m =
      let found =
        if Store.contains t entity_id m
        then m
        else (Store.insert t (new entity_id (d.lit 100 0)) m).0 in
      let ticked = Store.tick_price t now.ticked_at entity_id price found in
      let weighed =
        (Store.update_weight t now.weighed_at entity_id (f.lit 200 0) (f.lit 9 1) (f.lit 1 1)
          ticked).0 in
      if f.lt now.draw (f.lit 15 2)
      then Store.set_causal_trigger t now.flagged_at entity_id true weighed
      else weighed

  -- The body of the loop over the array. A remainder by zero panics.
  unfoldable pub process_item : Moment F → V → M → Outcome M
  process_item now item m = elim (quote item) [
    | none ↦ done m
    | some (sym, price) ↦
        if max_entities == 0
        then panic
        else done (register now (wire.hash sym % max_entities) price m)
  ]

  unfoldable pub process_items : (ℕ → Moment F) → ℕ → List V → M → Outcome M
  process_items now k [] m = done m
  process_items now k (item ∷ items) m = do
    m' ← process_item (now k) item m
    process_items now (suc k) items m'

  unfoldable pub process_batch : (ℕ → Moment F) → String → M → Outcome M
  process_batch now json_str m = elim (wire.array json_str) [
    | none ↦ done m
    | some items ↦ process_items now 0 items m
  ]

  -- The `while let` loop over these polls; the k-th text has the moments `now k`.
  unfoldable pub read_loop : (ℕ → ℕ → Moment F) → ℕ → List Poll → M → Outcome (Progress M)
  read_loop now k [] m = done (record { store = m; returned = false })
  read_loop now k (none ∷ read) m = done (record { store = m; returned = true })
  read_loop now k (some (ok (text t)) ∷ read) m = do
    m' ← process_batch (now k) t m
    read_loop now (suc k) read m'
  read_loop now k (some (ok ping) ∷ read) m = read_loop now k read m
  read_loop now k (some (ok pong) ∷ read) m = read_loop now k read m
  read_loop now k (some (ok close) ∷ read) m = done (record { store = m; returned = true })
  read_loop now k (some (ok binary) ∷ read) m = read_loop now k read m
  read_loop now k (some (ok frame) ∷ read) m = read_loop now k read m
  read_loop now k (some (err e) ∷ read) m = done (record { store = m; returned = true })

  -- `run` for `n` polls of the connection that `connect_async` gives, or on its error.
  unfoldable pub run : (ℕ → ℕ → Moment F) → Result String (ℕ → Poll) → ℕ → M → Outcome (Progress M)
  run now (ok ws_stream) n m = read_loop now 0 (polls ws_stream n) m
  run now (err e) n m = done (record { store = m; returned = true })
