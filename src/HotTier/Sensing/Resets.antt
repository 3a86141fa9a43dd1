-- ===== src/HotTier/Sensing/Resets.antt =====
-- What the loop of one sweep of `SensingAgent` (crates/hot-tier/src/lib.rs) does to the store, and the
-- snapshot by ids.
use atlas_hpc.Base.{
  ℕ, suc, ◌≡◌, refl, sym, ◌∙◌, ap, subst, Bool, false, not, ◌&&◌, none, some, List, [], ◌∷◌, map,
  ◌==◌, nat_eq, nat_beq_iff, if◌then◌else◌, arith,
}
use atlas_hpc.Base.Dict
use atlas_hpc.Base.Dict.{Dict, Distinct}
use atlas_hpc.Base.Float.{Float}
use atlas_hpc.HotTier.Channel.{Sender}
use atlas_hpc.HotTier.DashMap.{DashMap, IsDashMap}
use atlas_hpc.HotTier.Store.{set_causal_trigger}
use atlas_hpc.Types.Entity.{WeightedEntity}
use atlas_hpc.Types.Signal.{SignalEvent}
use atlas_hpc.HotTier.Sensing.{SensingConfig, Instants, Sensor, sense, sense_all, snapshots}
use atlas_hpc.HotTier.Sensing.Detect.{by_id, sense_store}

-- Every entity of the store stands under its own id.
abbrev pub Keyed : {F D M : Type 0} → DashMap (WeightedEntity F D) M → M → Type 0
Keyed {F} {D} t m = (j : ℕ) (e : WeightedEntity F D) → t.get j m ≡ some e → e.entity_id ≡ j

pub by_id-eq :
    {F D : Type 0} (m : Dict ℕ (WeightedEntity F D))
    → Distinct m
    → ((j : ℕ) (e : WeightedEntity F D) → Dict.lookup j m ≡ some e → e.entity_id ≡ j)
    → by_id (map (λ p. p.1) m) ≡ m
unfolding Dict.lookup
by_id-eq [] d h = refl
by_id-eq ((k, e) ∷ m) (new, d) h =
    let here : e.entity_id ≡ k = h k e (ground (arith, nat_beq_iff k k)) in
    let later =
      λ (j : ℕ) (x : _) (p : Dict.lookup j m ≡ some x). h j x (ground (arith, nat_beq_iff j k)) in
    let rest = by_id-eq m d later in
    ap (λ k'. (k', e) ∷ by_id (map (λ p. p.1) m)) here ∙ ap (◌∷◌ (k, e)) rest

module _ {F D M C : Type 0} ⦃f : Float F⦄ (t : DashMap (WeightedEntity F D) M)
    (sender : Sender (SignalEvent F) C) (config : SensingConfig F) where
  -- Whether an entity among `es` has its trigger set.
  abbrev pub triggered : ℕ → List (WeightedEntity F D) → Bool
  triggered j es = elim (Dict.lookup j (by_id es)) as (λ _. Bool) [
    | none ↦ false
    | some e ↦ e.causal_trigger_bit
  ]

  -- What the loop does to one entity of the store.
  pub record Reset (es : List (WeightedEntity F D)) (before after : M) (j : ℕ) : Type 0 where
    pub absent : t.get j before ≡ none → t.get j after ≡ none
    pub present :
        (e : WeightedEntity F D)
        → t.get j before ≡ some e
        → (ns : ℕ) × (t.get j after
            ≡ some (record e {
              causal_trigger_bit = e.causal_trigger_bit && not (triggered j es);
              last_updated_ns = ns;
            }))

  module _ (laws : IsDashMap t) where
    pub sense-Reset :
        (at : Instants) (e : WeightedEntity F D) (s : Sensor F M C) (j : ℕ)
        → Reset (e ∷ []) s.store (sense t sender config at e s).store j
    unfolding set_causal_trigger Dict.lookup
    sense-Reset at e s j =
        let write = λ (x : WeightedEntity F D). record x {
          causal_trigger_bit = false;
          last_updated_ns = at.reset_at;
        } in
        let read = laws.get-alter e.entity_id write s.store j in
        let stored = ap (t.get j) (sense_store t sender config at e s) in
        record {
          absent = λ gone. ground (arith, nat_beq_iff j e.entity_id, nat_beq_iff e.entity_id j);
          present = λ x found. (
            if e.causal_trigger_bit && (e.entity_id == j) then at.reset_at else x.last_updated_ns,
            ground (arith, nat_beq_iff j e.entity_id, nat_beq_iff e.entity_id j),
          );
        }

    pub sense_all-Reset :
        (at : ℕ → Instants) (k : ℕ) (es : List (WeightedEntity F D)) (s : Sensor F M C) (j : ℕ)
        → Distinct (by_id es)
        → Reset es s.store (sense_all t sender config at k es s).store j
    unfolding sense_all Dict.lookup
    sense_all-Reset at k [] s j h = record {
      absent = λ gone. gone;
      present = λ x found. (x.last_updated_ns, ground arith);
    }
    sense_all-Reset at k (e ∷ es) s j (new, h) =
        let first = sense-Reset (at k) e s j in
        let rest = sense_all-Reset at (suc k) es (sense t sender config (at k) e s) j h in
        record {
          absent = λ gone. rest.absent (first.absent gone);
          present = λ x found.
              let (ns, found') = first.present x found in
              let (ns', found'') = rest.present _ found' in
              (ns', ground (arith, nat_beq_iff j e.entity_id, nat_beq_iff e.entity_id j));
        }

    -- The snapshot of a keyed store, by ids, is the store.
    pub by_id-snapshots : (m : M) → Keyed t m → by_id (snapshots t sender config m) ≡ t.entries m
    by_id-snapshots m h =
        by_id-eq (t.entries m) (laws.entries-Distinct m)
          (λ j e p. h j e (sym (laws.lookup-entries m j) ∙ p))

    pub snapshots-lookup :
        (m : M)
        → Keyed t m
        → (j : ℕ) → Dict.lookup j (by_id (snapshots t sender config m)) ≡ t.get j m
    snapshots-lookup m h j = ap (Dict.lookup j) (by_id-snapshots m h) ∙ laws.lookup-entries m j

    pub snapshots-Distinct : (m : M) → Keyed t m → Distinct (by_id (snapshots t sender config m))
    snapshots-Distinct m h =
        subst (λ n. Distinct n) (sym (by_id-snapshots m h)) (laws.entries-Distinct m)
