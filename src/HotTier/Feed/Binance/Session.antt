-- ===== src/HotTier/Feed/Binance/Session.antt =====
-- A session of `BinanceFeedAdapter::run` (crates/hot-tier/src/binance.rs).
use Prim.Native.String.{String}
use atlas_hpc.Base.{
  ℕ, suc, ◌%◌, ◌≡◌, ◌≢◌, refl, sym, ◌∙◌, ap, fun_ext, Bool, true, false, ◌||◌, none, some, List, [],
  ◌∷◌, nat_eq, In, inl, inr,
}
use atlas_hpc.Base.Float.{Float}
use atlas_hpc.Base.Outcome.{Outcome, done, map_outcome, map_outcome_bind, ◌>>=◌}
use atlas_hpc.Base.Result.{Result, ok, err}
use atlas_hpc.HotTier.DashMap.{DashMap, IsDashMap}
use atlas_hpc.HotTier.Store
use atlas_hpc.HotTier.Store.Laws.{view, IsKeyed}
use atlas_hpc.Types.Entity.{WeightedEntity}
use atlas_hpc.HotTier.Feed.Binance.{
  Wire, Moment, text, binary, ping, pong, close, frame, Poll, polls, quote, process_batch,
  read_loop, run,
}
use atlas_hpc.HotTier.Feed.Binance.Stored.{process_batch_lem}

-- The texts that come before the first close or error, or the end of the stream.
pub heard : List Poll → List String
heard [] = []
heard (none ∷ read) = []
heard (some (ok (text t)) ∷ read) = t ∷ heard read
heard (some (ok close) ∷ read) = []
heard (some (ok ping) ∷ read) = heard read
heard (some (ok pong) ∷ read) = heard read
heard (some (ok binary) ∷ read) = heard read
heard (some (ok frame) ∷ read) = heard read
heard (some (err e) ∷ read) = []

-- A poll after which nothing is read: the end of the stream, a close, or an error.
abbrev pub ends : Poll → Bool
ends none = true
ends (some (err e)) = true
ends (some (ok close)) = true
ends (some (ok (text t))) = false
ends (some (ok ping)) = false
ends (some (ok pong)) = false
ends (some (ok binary)) = false
ends (some (ok frame)) = false

-- Whether one of the polls is such.
abbrev pub over : List Poll → Bool
over [] = false
over (x ∷ read) = ends x || over read

-- The texts of the first `n` polls of a session; a failed connection has none.
abbrev pub heard_in : Result String (ℕ → Poll) → ℕ → List String
heard_in (ok ws_stream) n = heard (polls ws_stream n)
heard_in (err e) n = []

-- Whether a session is over by the first `n` polls; a failed connection is.
abbrev pub over_in : Result String (ℕ → Poll) → ℕ → Bool
over_in (ok ws_stream) n = over (polls ws_stream n)
over_in (err e) n = true

module _ {F D V M : Type 0} ⦃f : Float F⦄ ⦃d : Float D⦄ (t : DashMap (WeightedEntity F D) M)
    (wire : Wire D V) (max_entities : ℕ) where
  -- The batches of these texts, one after the other.
  abbrev pub batches : (ℕ → ℕ → Moment F) → ℕ → List String → M → Outcome M
  batches now k [] m = done m
  batches now k (x ∷ xs) m =
      process_batch t wire max_entities (now k) x m >>= λ m'. batches now (suc k) xs m'

  pub read_loop-batches :
      (now : ℕ → ℕ → Moment F) (k : ℕ) (read : List Poll) (m : M)
      → read_loop t wire max_entities now k read m
        ≡ map_outcome
            (λ m'. record { store = m'; returned = over read })
            (batches now k (heard read) m)
  unfolding read_loop heard
  read_loop-batches now k [] m = refl
  read_loop-batches now k (none ∷ read) m = refl
  read_loop-batches now k (some (ok (text x)) ∷ read) m =
      let first = process_batch t wire max_entities (now k) x m in
      ap (λ g. first >>= g) (fun_ext (λ m'. read_loop-batches now (suc k) read m'))
      ∙ sym (
          map_outcome_bind (λ m'. record { store = m'; returned = over read }) first
            (λ m'. batches now (suc k) (heard read) m'))
  read_loop-batches now k (some (ok ping) ∷ read) m = read_loop-batches now k read m
  read_loop-batches now k (some (ok pong) ∷ read) m = read_loop-batches now k read m
  read_loop-batches now k (some (ok close) ∷ read) m = refl
  read_loop-batches now k (some (ok binary) ∷ read) m = read_loop-batches now k read m
  read_loop-batches now k (some (ok frame) ∷ read) m = read_loop-batches now k read m
  read_loop-batches now k (some (err e) ∷ read) m = refl

  -- A quote that the text holds.
  abbrev pub Quotes : String → String → D → Type 0
  Quotes x symbol price =
      (items : List V) × (item : V) × (wire.array x ≡ some items)
      × In item items
      × (quote t wire max_entities item ≡ some (symbol, price))

  module _ (laws : IsDashMap t) (pos : max_entities ≢ 0) where
    batches_lem :
        (now : ℕ → ℕ → Moment F) (k : ℕ) (xs : List String) (m : M)
        → (m' : M) × (batches now k xs m ≡ done m')
          × ((j : ℕ) → Store.contains t j m ≡ true → Store.contains t j m' ≡ true)
          × (IsKeyed t (view t m) → IsKeyed t (view t m'))
          × ((x symbol : String) (price : D)
              → In x xs
              → Quotes x symbol price
              → Store.contains t (wire.hash symbol % max_entities) m' ≡ true)
    batches_lem now k [] m = (m, refl, λ j h. h, λ h. h, λ x symbol price i q. absurd i)
    batches_lem now k (y ∷ ys) m =
        let (m1, ran1, kept1, keyed1, all1) =
          process_batch_lem t wire max_entities laws pos (now k) y m in
        let (m2, ran2, kept2, keyed2, all2) = batches_lem now (suc k) ys m1 in
        (
          m2,
          ap (λ o. o >>= λ m'. batches now (suc k) ys m') ran1 ∙ ran2,
          λ j h. kept2 j (kept1 j h),
          λ h. keyed2 (keyed1 h),
          λ x symbol price i q. elim i [
            | inl here ↦
                let (items, item, there, among, quoted) = q in
                kept2 (wire.hash symbol % max_entities)
                  (all1 items item symbol price (sym (ap wire.array here) ∙ there) among quoted)
            | inr later ↦ all2 x symbol price later q
          ],
        )

    -- If `max_entities` is not 0, a session does not panic in any number of polls, whatever the
    -- stream yields, and by then it has returned exactly if the connection failed or one of the
    -- polls was a close, an error or the end of the stream. No entity is lost, a store in which
    -- entities stand under their own ids stays so, and each quote in a text that comes before that
    -- poll leaves the entity that its symbol hashes to in the store. If there is no such text, the
    -- store is as it was.
    pub run_lem :
        (now : ℕ → ℕ → Moment F) (connection : Result String (ℕ → Poll)) (n : ℕ) (m : M)
        → (m' : M) × (run t wire max_entities now connection n m
            ≡ done (record { store = m'; returned = over_in connection n }))
          × ((j : ℕ) → Store.contains t j m ≡ true → Store.contains t j m' ≡ true)
          × (IsKeyed t (view t m) → IsKeyed t (view t m'))
          × (heard_in connection n ≡ [] → m' ≡ m)
          × ((x symbol : String) (price : D)
              → In x (heard_in connection n)
              → Quotes x symbol price
              → Store.contains t (wire.hash symbol % max_entities) m' ≡ true)
    unfolding run
    run_lem now (err e) n m =
        (m, refl, λ j h. h, λ h. h, λ same. refl, λ x symbol price i q. absurd i)
    run_lem now (ok stream) n m =
        let read = polls stream n in
        let (m', ran, kept, keyed, all) = batches_lem now 0 (heard read) m in
        (
          m',
          read_loop-batches now 0 read m
              ∙ ap (map_outcome (λ z. record { store = z; returned = over read })) ran,
          kept,
          keyed,
          λ silent.
              let nothing : batches now 0 (heard read) m ≡ done m =
                ap (λ xs. batches now 0 xs m) silent in
              let e : done m' ≡ done m = sym ran ∙ nothing in cc,
          all,
        )
