-- ===== src/HotTier/Feed/Binance/Panics.antt =====
-- A session of `BinanceFeedAdapter::run` (crates/hot-tier/src/binance.rs) with `max_entities` 0.
use Prim.Native.String.{String}
use atlas_hpc.Base.{
  ℕ, suc, ◌≡◌, refl, ◌∙◌, ap, subst, none, some, List, [], ◌∷◌, nat_eq, In, arith, Option-cases,
  ◌⊎◌, inl, inr,
}
use atlas_hpc.Base.Float.{Float}
use atlas_hpc.Base.Outcome.{done, panic, map_outcome}
use atlas_hpc.Base.Result.{Result, ok, err}
use atlas_hpc.HotTier.DashMap.{DashMap}
use atlas_hpc.Types.Entity.{WeightedEntity}
use atlas_hpc.HotTier.Feed.Binance.{
  Wire, Moment, Poll, polls, Progress, quote, process_item, process_items, process_batch, run,
}
use atlas_hpc.HotTier.Feed.Binance.Session.{
  heard, heard_in, over, over_in, batches, read_loop-batches, Quotes,
}

module _ {F D V M : Type 0} ⦃f : Float F⦄ ⦃d : Float D⦄ (t : DashMap (WeightedEntity F D) M)
    (wire : Wire D V) where
  items_zero :
      (now : ℕ → Moment F) (k : ℕ) (items : List V) (m : M)
      → ((process_items t wire 0 now k items m ≡ panic)
          × (item : V) × (symbol : String) × (price : D) × In item items
          × (quote t wire 0 item ≡ some (symbol, price)))
        ⊎ ((process_items t wire 0 now k items m ≡ done m)
            × ((item : V) → In item items → quote t wire 0 item ≡ none))
  unfolding process_items process_item
  items_zero now k [] m = inr (refl, λ item i. absurd i)
  items_zero now k (x ∷ xs) m = elim (Option-cases (quote t wire 0 x)) [
    | inr ((symbol, price), there) ↦ inl (ground arith, x, symbol, price, inl refl, there)
    | inl nothing ↦ elim (items_zero now (suc k) xs m) [
      | inl (stops, item, symbol, price, i, there) ↦
          inl (ground arith, item, symbol, price, inr i, there)
      | inr (goes, none_there) ↦ inr (
        ground arith,
        λ item i. elim i [
          | inl here ↦ ap (quote t wire 0) here ∙ nothing
          | inr later ↦ none_there item later
        ],
      )
    ]
  ]

  batch_zero :
      (now : ℕ → Moment F) (x : String) (m : M)
      → ((process_batch t wire 0 now x m ≡ panic)
          × (symbol : String) × (price : D) × Quotes t wire 0 x symbol price)
        ⊎ ((process_batch t wire 0 now x m ≡ done m)
            × ((symbol : String) (price : D) → ¬ Quotes t wire 0 x symbol price))
  unfolding process_batch
  batch_zero now x m = elim (Option-cases (wire.array x)) [
    | inl bad ↦ inr (ground arith, λ symbol price (items, item, there, i, q). ground arith)
    | inr (items, good) ↦ elim (items_zero now 0 items m) [
      | inl (stops, item, symbol, price, i, q) ↦
          inl (ground arith, symbol, price, (items, item, good, i, q))
      | inr (goes, none_there) ↦ inr (
        ground arith,
        λ symbol price (items', item, there, i, q).
            let same : items' ≡ items = cc in
            ground (arith, none_there item (subst (In item) same i)),
      )
    ]
  ]

  batches_zero :
      (now : ℕ → ℕ → Moment F) (k : ℕ) (xs : List String) (m : M)
      → ((batches t wire 0 now k xs m ≡ panic)
          × (x : String) × (symbol : String) × (price : D) × In x xs
          × Quotes t wire 0 x symbol price)
        ⊎ ((batches t wire 0 now k xs m ≡ done m)
            × ((x symbol : String) (price : D) → In x xs → ¬ Quotes t wire 0 x symbol price))
  batches_zero now k [] m = inr (refl, λ x symbol price i. absurd i)
  batches_zero now k (y ∷ ys) m = elim (batch_zero (now k) y m) [
    | inl (stops, symbol, price, q) ↦ inl (ground arith, y, symbol, price, inl refl, q)
    | inr (goes, quiet) ↦ elim (batches_zero now (suc k) ys m) [
      | inl (stops, x, symbol, price, i, q) ↦ inl (ground arith, x, symbol, price, inr i, q)
      | inr (all_done, silent) ↦ inr (
        ground arith,
        λ x symbol price i q. elim i [
          | inl here ↦ quiet symbol price (subst (λ z. Quotes t wire 0 z symbol price) here q)
          | inr later ↦ silent x symbol price later q
        ],
      )
    ]
  ]

  -- With `max_entities` 0 a session panics in the first `n` polls if a text among them, before the
  -- first close or error, holds a quote. Otherwise it leaves the store as it was, and has returned
  -- exactly if the connection failed or one of the polls was a close, an error or the end of the
  -- stream.
  pub run_zero :
      (now : ℕ → ℕ → Moment F) (connection : Result String (ℕ → Poll)) (n : ℕ) (m : M)
      → ((run t wire 0 now connection n m ≡ panic)
          × (x : String) × (symbol : String) × (price : D) × In x (heard_in connection n)
          × Quotes t wire 0 x symbol price)
        ⊎ ((run t wire 0 now connection n m
              ≡ done (record { store = m; returned = over_in connection n }))
            × ((x symbol : String) (price : D)
                → In x (heard_in connection n)
                → ¬ Quotes t wire 0 x symbol price))
  unfolding run
  run_zero now (err e) n m = inr (refl, λ x symbol price i. absurd i)
  run_zero now (ok stream) n m =
      let read = polls stream n in
      let finish : M → Progress M = λ z. record { store = z; returned = over read } in
      let same = read_loop-batches t wire 0 now 0 read m in
      elim (batches_zero now 0 (heard read) m) [
        | inl (stops, x, symbol, price, i, q) ↦
            inl (same ∙ ap (map_outcome finish) stops, x, symbol, price, i, q)
        | inr (goes, silent) ↦ inr (same ∙ ap (map_outcome finish) goes, silent)
      ]
