-- ===== src/HotTier/Feed/Binance/Stored.antt =====
-- What `process_batch` (crates/hot-tier/src/binance.rs) leaves in the store.
use Prim.Native.String.{String}
use atlas_hpc.Base.{
  ℕ, suc, ◌%◌, ◌≡◌, ◌≢◌, refl, sym, ◌∙◌, ap, subst, Bool, true, some, List, [], ◌∷◌, ◌++◌, nat_eq,
  nat_beq_iff, if◌then◌else◌, In, arith, Bool-cases, Option-cases, inl, inr,
}
use atlas_hpc.Base.Float.{Float}
use atlas_hpc.Base.Outcome.{done}
use atlas_hpc.HotTier.DashMap.{DashMap, IsDashMap}
use atlas_hpc.HotTier.Store
use atlas_hpc.HotTier.Store.Laws.{
  Call, insert_call, weight_call, trigger_call, price_call, perform, run, view, IsKeyed,
  run-IsKeyed, run-contains,
}
use atlas_hpc.Types.Entity.{WeightedEntity, new}
use atlas_hpc.HotTier.Feed.Binance.{
  Wire, Moment, quote, register, process_item, process_items, process_batch,
}

module _ {F D V M : Type 0} ⦃f : Float F⦄ ⦃d : Float D⦄ (t : DashMap (WeightedEntity F D) M)
    (wire : Wire D V) (max_entities : ℕ) where
  -- The calls for one quote.
  abbrev quote_calls : Moment F → ℕ → D → Bool → List (Call F D)
  quote_calls now id price known =
      (if known then [] else insert_call (new id (d.lit 100 0)) ∷ [])
      ++ price_call now.ticked_at id price
        ∷ weight_call now.weighed_at id (f.lit 200 0) (f.lit 9 1) (f.lit 1 1)
        ∷ (if f.lt now.draw (f.lit 15 2) then trigger_call now.flagged_at id true ∷ [] else [])

  register_calls :
      (now : Moment F) (id : ℕ) (price : D) (m : M)
      → register t wire max_entities now id price m
        ≡ run t (quote_calls now id price (Store.contains t id m)) m
  unfolding register run perform
  register_calls now id price m = ground arith

  module _ (laws : IsDashMap t) where
    register-contains :
        (now : Moment F) (id : ℕ) (price : D) (m : M)
        → Store.contains t id (register t wire max_entities now id price m) ≡ true
    unfolding run perform Store.contains Store.insert new
    register-contains now id price m =
        rw (register_calls now id price m) (elim (Bool-cases (Store.contains t id m)) [
          | inl known ↦
              run-contains t laws (quote_calls now id price (Store.contains t id m)) m id known
          | inr unknown ↦
              let e = new id (d.lit 100 0) in
              let calls = quote_calls now id price true in
              let there : Store.contains t id (t.insert id e m) ≡ true =
                ground (arith, laws.get-insert id e m id, nat_beq_iff id id) in
              rw unknown (run-contains t laws calls (t.insert id e m) id there)
        ])

    run-append : (xs ys : List (Call F D)) (m : M) → run t (xs ++ ys) m ≡ run t ys (run t xs m)
    unfolding run
    run-append [] ys m = refl
    run-append (c ∷ xs) ys m = run-append xs ys (perform t c m)

    -- A batch is a run of calls of the store, and each quote leaves its entity in the store.
    process_items_lem :
        max_entities ≢ 0
        → (now : ℕ → Moment F) (k : ℕ) (items : List V) (m : M)
        → (m' : M) × (calls : List (Call F D)) × (process_items t wire max_entities now k items m
            ≡ done m')
          × (m' ≡ run t calls m)
          × ((item : V) (text : String) (price : D)
              → In item items
              → quote t wire max_entities item ≡ some (text, price)
              → Store.contains t (wire.hash text % max_entities) m' ≡ true)
    unfolding process_items process_item run
    process_items_lem pos now k [] m = (m, [], refl, refl, λ item text price i q. absurd i)
    process_items_lem pos now k (item ∷ items) m =
        elim (Option-cases (quote t wire max_entities item)) [
          | inl none_there ↦
              let (m', calls, ran, same, all) = process_items_lem pos now (suc k) items m in
              (
                m',
                calls,
                ground arith,
                same,
                λ x text price i q. elim i [
                  | inl here ↦ absurd (ground (arith, ap (quote t wire max_entities) here))
                  | inr later ↦ all x text price later q
                ],
              )
          | inr ((text, price), there) ↦
              let id = wire.hash text % max_entities in
              let m1 = register t wire max_entities (now k) id price m in
              let (m', calls, ran, same, all) = process_items_lem pos now (suc k) items m1 in
              let first = quote_calls (now k) id price (Store.contains t id m) in
              let stays = run-contains t laws calls m1 id (register-contains (now k) id price m) in
              (
                m',
                first ++ calls,
                ground (arith, nat_beq_iff max_entities 0),
                same
                    ∙ ap (run t calls) (register_calls (now k) id price m)
                    ∙ sym (run-append first calls m),
                λ x text' price' i q. elim i [
                  | inl here ↦
                      let e : quote t wire max_entities item ≡ some (text', price') =
                        sym (ap (quote t wire max_entities) here) ∙ q in
                      let same_text : text' ≡ text = cc in
                      subst (λ s. Store.contains t (wire.hash s % max_entities) m' ≡ true)
                        (sym same_text) (subst (λ z. Store.contains t id z ≡ true) (sym same) stays)
                  | inr later ↦ all x text' price' later q
                ],
              )
        ]

    -- If `max_entities` is not 0, `process_batch` returns for every text. No entity is lost, a store
    -- in which entities stand under their own ids stays so, and each item of the array with a
    -- symbol and a price leaves the entity that its symbol hashes to in the store.
    pub process_batch_lem :
        max_entities ≢ 0
        → (now : ℕ → Moment F) (json_str : String) (m : M)
        → (m' : M) × (process_batch t wire max_entities now json_str m ≡ done m')
          × ((j : ℕ) → Store.contains t j m ≡ true → Store.contains t j m' ≡ true)
          × (IsKeyed t (view t m) → IsKeyed t (view t m'))
          × ((items : List V) (item : V) (text : String) (price : D)
              → wire.array json_str ≡ some items
              → In item items
              → quote t wire max_entities item ≡ some (text, price)
              → Store.contains t (wire.hash text % max_entities) m' ≡ true)
    unfolding process_batch
    process_batch_lem pos now json_str m = elim (Option-cases (wire.array json_str)) [
      | inl bad ↦
          (m, ground arith, λ j h. h, λ h. h, λ items item text price e i q. absurd (ground arith))
      | inr (items, good) ↦
          let (m', calls, ran, same, all) = process_items_lem pos now 0 items m in
          (
            m',
            ground arith,
            λ j h. rw same (run-contains t laws calls m j h),
            λ h. rw same (run-IsKeyed t laws calls m h),
            λ items' item text price e i q.
                let same_items : items' ≡ items = cc in
                all item text price (subst (In item) same_items i) q,
          )
    ]
