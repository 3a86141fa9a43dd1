-- ===== src/HotTier/Store/Laws.antt =====
-- Runs of calls on `HotStore` (crates/hot-tier/src/lib.rs), against a plain function from ids to
-- entities.
use mathlib.Core.Option
use atlas_hpc.Base.{
  ℕ, ◌+◌, ◌≤◌, ◌≡◌, refl, sym, ◌∙◌, ap, fun_ext, Bool, true, Option, some, List, [], ◌∷◌, length,
  ◌==◌, nat_eq, arith, if◌then◌else◌, Option-cases, nat_beq_iff, inl, inr,
}
use atlas_hpc.Base.Float.{Float}
use atlas_hpc.Base.Dict.{is_some}
use atlas_hpc.HotTier.DashMap.{DashMap, IsDashMap, len-insert, len-alter}
use atlas_hpc.Types.Entity.{WeightedEntity}
use atlas_hpc.HotTier.Store.{
  reweigh, insert, get, update_weight, set_causal_trigger, tick_price, len, contains,
}

-- A call that writes, with the clock reading that it makes.
pub data Call (F D : Type 0) : Type 0 where
  insert_call : WeightedEntity F D → Call F D
  -- now, entity_id, surprise, alpha, beta
  weight_call : ℕ → ℕ → F → F → F → Call F D
  trigger_call : ℕ → ℕ → Bool → Call F D
  price_call : ℕ → ℕ → D → Call F D

-- The abstract store.
abbrev pub View : Type 0 → Type 0 → Type 0
View F D = ℕ → Option (WeightedEntity F D)

module _ {F D : Type 0} ⦃f : Float F⦄ where
  abbrev change : ℕ → (WeightedEntity F D → WeightedEntity F D) → View F D → View F D
  change k g s j = if k == j then Option.map g (s j) else s j

  -- What each call promises: an insert binds its own id, the others change one entity in place.
  abbrev pub promised : Call F D → View F D → View F D
  promised (insert_call e) s = λ j. if e.entity_id == j then some e else s j
  promised (weight_call now k surprise alpha beta) s =
      change k
        (λ e. record e {
          importance_weight = f.add (f.mul e.importance_weight alpha) (f.mul surprise beta);
          last_updated_ns = now;
        })
        s
  promised (trigger_call now k b) s =
      change k (λ e. record e { causal_trigger_bit = b; last_updated_ns = now }) s
  promised (price_call now k p) s =
      change k (λ e. record e { latest_price = p; last_updated_ns = now }) s

  abbrev pub promised_all : List (Call F D) → View F D → View F D
  promised_all [] s = s
  promised_all (c ∷ cs) s = promised_all cs (promised c s)

module _ {F D M : Type 0} ⦃f : Float F⦄ (t : DashMap (WeightedEntity F D) M) where
  unfoldable pub perform : Call F D → M → M
  perform (insert_call e) m = (insert t e m).0
  perform (weight_call now k surprise alpha beta) m =
      (update_weight t now k surprise alpha beta m).0
  perform (trigger_call now k b) m = set_causal_trigger t now k b m
  perform (price_call now k p) m = tick_price t now k p m

  unfoldable pub run : List (Call F D) → M → M
  run [] m = m
  run (c ∷ cs) m = run cs (perform c m)

  unfoldable pub view : M → View F D
  unfolding get
  view m = λ j. get t j m

  -- Every entity stands under its own id.
  abbrev pub IsKeyed : View F D → Type 0
  IsKeyed s = (j : ℕ) (e : WeightedEntity F D) → s j ≡ some e → e.entity_id ≡ j

  module _ (laws : IsDashMap t) where
    perform-view : (c : Call F D) (m : M) (j : ℕ) → view (perform c m) j ≡ promised c (view m) j
    unfolding view perform insert update_weight set_causal_trigger tick_price
    perform-view (insert_call e) m j = laws.get-insert e.entity_id e m j
    perform-view (weight_call now k s a b) m j =
        ground (arith, laws.get-alter k (reweigh now s a b) m j, nat_beq_iff k j)
    perform-view (trigger_call now k b) m j = laws.get-alter k _ m j
    perform-view (price_call now k p) m j = laws.get-alter k _ m j

    -- After any run of `insert`, `update_weight`, `set_causal_trigger` and `tick_price` every read
    -- of the store finds what the calls promise, one after the other, of a plain function from ids
    -- to entities: an insert binds its own id, and each of the others writes its fields in one
    -- entity that is there.
    pub run-view : (cs : List (Call F D)) (m : M) → view (run cs m) ≡ promised_all cs (view m)
    unfolding run
    run-view [] m = refl
    run-view (c ∷ cs) m =
        run-view cs (perform c m) ∙ ap (promised_all cs) (fun_ext (perform-view c m))

    promised-IsKeyed : (c : Call F D) (s : View F D) → IsKeyed s → IsKeyed (promised c s)
    promised-IsKeyed (insert_call e) s h j x p = ground (arith, nat_beq_iff e.entity_id j, h j x)
    promised-IsKeyed (weight_call now k s' a b) s h j x p = elim (Option-cases (s j)) [
      | inl empty ↦ ground arith
      | inr (e, found) ↦ ground (arith, h j e)
    ]
    promised-IsKeyed (trigger_call now k b) s h j x p = elim (Option-cases (s j)) [
      | inl empty ↦ ground arith
      | inr (e, found) ↦ ground (arith, h j e)
    ]
    promised-IsKeyed (price_call now k y) s h j x p = elim (Option-cases (s j)) [
      | inl empty ↦ ground arith
      | inr (e, found) ↦ ground (arith, h j e)
    ]

    -- If every entity of a store stands under its own id, this holds after any run of calls.
    pub run-IsKeyed : (cs : List (Call F D)) (m : M) → IsKeyed (view m) → IsKeyed (view (run cs m))
    unfolding run
    run-IsKeyed [] m h = h
    run-IsKeyed (c ∷ cs) m h =
        run-IsKeyed cs (perform c m)
          (λ j e p. promised-IsKeyed c (view m) h j e (sym (perform-view c m j) ∙ p))

    promised_keeps :
        (c : Call F D) (s : View F D) (j : ℕ)
        → is_some (s j) ≡ true
        → is_some (promised c s j) ≡ true
    promised_keeps (insert_call e) s j h = ground arith
    promised_keeps (weight_call now k s' a b) s j h = ground arith
    promised_keeps (trigger_call now k b) s j h = ground arith
    promised_keeps (price_call now k y) s j h = ground arith

    perform-contains :
        (c : Call F D) (m : M) (j : ℕ) → contains t j m ≡ true → contains t j (perform c m) ≡ true
    unfolding contains view get
    perform-contains c m j h = rw (perform-view c m j) (promised_keeps c (view m) j h)

    -- An entity that is in the store is there after any run of calls.
    pub run-contains :
        (cs : List (Call F D)) (m : M) (j : ℕ)
        → contains t j m ≡ true
        → contains t j (run cs m) ≡ true
    unfolding run
    run-contains [] m j h = h
    run-contains (c ∷ cs) m j h = run-contains cs (perform c m) j (perform-contains c m j h)

    len-perform :
        (c : Call F D) (m : M)
        → (len t m ≤ len t (perform c m)) × (len t (perform c m) ≤ len t m + 1)
    unfolding perform insert update_weight set_causal_trigger tick_price len
    len-perform (insert_call e) m = ground (arith, len-insert t laws e.entity_id e m)
    len-perform (weight_call now k s a b) m =
        ground (arith, len-alter t laws k (reweigh now s a b) m)
    len-perform (trigger_call now k b) m =
        let write =
          λ (e : WeightedEntity F D). record e { causal_trigger_bit = b; last_updated_ns = now } in
        omega (arith, len-alter t laws k write m)
    len-perform (price_call now k p) m =
        let write =
          λ (e : WeightedEntity F D). record e { latest_price = p; last_updated_ns = now } in
        omega (arith, len-alter t laws k write m)

    -- A run of calls does not lower `len`, and raises it by at most the number of the calls.
    pub len-run :
        (cs : List (Call F D)) (m : M)
        → (len t m ≤ len t (run cs m)) × (len t (run cs m) ≤ len t m + length cs)
    unfolding run
    len-run [] m = omega arith
    len-run (c ∷ cs) m = omega (arith, len-perform c m, len-run cs (perform c m))

    -- `update_weight` answers with the old weight and W_old × α + S × β of the entity that was
    -- there, or with `None`; and what it answers as the new weight is what a later `get` finds.
    pub update_weight_result :
        (now k : ℕ) (surprise alpha beta : F) (m : M)
        → let after = update_weight t now k surprise alpha beta m in
          (after.1
            ≡ Option.map
                (λ e. (
                  e.importance_weight,
                  f.add (f.mul e.importance_weight alpha) (f.mul surprise beta),
                ))
                (get t k m))
          × (Option.map (λ e. e.importance_weight) (get t k after.0)
              ≡ Option.map (λ p. p.1) after.1)
    unfolding update_weight get
    update_weight_result now k s a b m =
        ground (arith, laws.get-alter k (reweigh now s a b) m k, nat_beq_iff k k)
