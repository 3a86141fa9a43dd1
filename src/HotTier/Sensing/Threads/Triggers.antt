-- ===== src/HotTier/Sensing/Threads/Triggers.antt =====
-- A trigger that is set in the store of `SensingAgent` (crates/hot-tier/src/lib.rs), or in what its
-- thread has read, and that the thread is bound to offer.
use atlas_hpc.Base.{
  ℕ, ◌+◌, ◌*◌, ◌<◌, ◌≡◌, ◌≢◌, refl, sym, ◌∙◌, ap, true, Option, none, some, List, [], ◌∷◌, map,
  nat_eq, nat_beq_iff, length, length-append, ◌++◌, In, In-append, arith, Bool-cases, Option-cases,
  ◌⊎◌, inl, inr,
}
use atlas_hpc.Base.Dict
use atlas_hpc.Base.Dict.{Dict}
use atlas_hpc.Base.Float.{Float}
use atlas_hpc.HotTier.Channel.{Channel}
use atlas_hpc.HotTier.DashMap.{DashMap}
use atlas_hpc.HotTier.Store.Laws.{insert_call, trigger_call}
use atlas_hpc.Types.Entity.{WeightedEntity}
use atlas_hpc.Types.Signal.{SignalEvent, causal_trigger}
use atlas_hpc.HotTier.Sensing.{SensingConfig, Instants, Sensor}
use atlas_hpc.HotTier.Sensing.Threads.{
  Phase, waiting, collecting, checking, to_list, notifying, weighing, Event, agent, write, receive,
  advance,
}

-- The clock of the agent's accesses.
abbrev pub agent_at : {F D : Type 0} → Event F D → Option Instants
agent_at (agent at) = some at
agent_at (write c) = none
agent_at receive = none

-- The agent's thread is scheduled again and again.
abbrev pub IsFair : {F D : Type 0} → (ℕ → Event F D) → Type 0
IsFair events = (n : ℕ) → (k : ℕ) × (at : Instants) × (events (k + n) ≡ agent at)

-- A call that does not take back the trigger of entity `j`.
abbrev pub KeepsTrigger : {F D : Type 0} → ℕ → Event F D → Type 0
KeepsTrigger j (write (insert_call e)) = e.entity_id ≢ j
KeepsTrigger j (write (trigger_call now k b)) = k ≡ j → b ≡ true
KeepsTrigger j _ = Unit

pub In_keys :
    {V : Type 0} (m : Dict ℕ V) (k : ℕ) (v : V) → Dict.lookup k m ≡ some v → In k (map (λ p. p.0) m)
unfolding Dict.lookup
In_keys [] k v h = cc
In_keys ((j, w) ∷ m) k v h = ground (arith, nat_beq_iff k j, In_keys m k v)

module _ {F D : Type 0} where
  -- A snapshot of entity `j` with its trigger set.
  abbrev pub Due : ℕ → WeightedEntity F D → Type 0
  Due j e = (e.entity_id ≡ j) × (e.causal_trigger_bit ≡ true)

  -- The accesses that are left of this sweep.
  abbrev pub cost : Phase F D → ℕ
  cost waiting = 0
  cost (collecting ks v) = 4 * length ks + 3 * length v + 2
  cost (checking es) = 3 * length es + 1
  cost (weighing e es) = 3 * length es + 2
  cost (notifying e es) = 3 * length es + 3

module _ {F D M C : Type 0} ⦃f : Float F⦄ (t : DashMap (WeightedEntity F D) M)
    (ch : Channel (SignalEvent F) C) (config : SensingConfig F) where
  -- Entity `j` stands in the store, with its trigger set.
  abbrev pub IsTriggered : ℕ → M → Type 0
  IsTriggered j m =
      (e : WeightedEntity F D) × (t.get j m ≡ some e)
      × (e.entity_id ≡ j)
      × (e.causal_trigger_bit ≡ true)

  -- The agent is bound to offer the trigger of `j` in this sweep: it is in a snapshot, or is set and
  -- still to be visited.
  abbrev pub Pending : ℕ → Phase F D → M → Type 0
  Pending j waiting m = ⊥
  Pending j (collecting ks v) m =
      ((e : WeightedEntity F D) × In e v × Due j e) ⊎ (In j ks × IsTriggered j m)
  Pending j (checking es) m = (e : WeightedEntity F D) × In e es × Due j e
  Pending j (notifying e es) m =
      (e.entity_id ≡ j) ⊎ ((e' : WeightedEntity F D) × In e' es × Due j e')
  Pending j (weighing e es) m = (e' : WeightedEntity F D) × In e' es × Due j e'

  -- The access offers the trigger of `j` to the channel.
  abbrev pub Offers : ℕ → Instants → C → C → Type 0
  Offers j at before after = after ≡ ch.sender.try_send (causal_trigger j at.trigger_at) before

  pub shorter :
      (k : ℕ) (m : M) (ks : List ℕ) (v : List (WeightedEntity F D))
      → 4 * length ks + 3 * length (v ++ to_list (t.get k m)) + 2
        < 4 * length (k ∷ ks) + 3 * length v + 2
  shorter k m ks v = elim (Option-cases (t.get k m)) [
    | inl gone ↦ ground (arith, length-append v (to_list (t.get k m)))
    | inr (e, there) ↦ ground (arith, length-append v (to_list (t.get k m)))
  ]

  pub Pending-step :
      (j : ℕ) (at : Instants) (p : Phase F D) (s : Sensor F M C)
      → Pending j p s.store
      → Offers j at s.tx (advance t ch config at p s).sensor.tx
        ⊎ (Pending j (advance t ch config at p s).phase (advance t ch config at p s).sensor.store
            × (cost (advance t ch config at p s).phase < cost p))
  unfolding advance
  Pending-step j at waiting s h = absurd h
  Pending-step j at (collecting [] v) s (inl due) = inr (due, omega arith)
  Pending-step j at (collecting [] v) s (inr (i, set)) = absurd i
  Pending-step j at (collecting (k ∷ ks) v) s (inl (e, i, due)) =
      let more = to_list (t.get k s.store) in
      inr (inl (e, (In-append e v more).1 (inl i), due), shorter k s.store ks v)
  Pending-step j at (collecting (k ∷ ks) v) s (inr (inl here, (e, found, same, bit))) =
      let read : t.get k s.store ≡ some e = ap (λ i. t.get i s.store) (sym here) ∙ found in
      let there : In e (to_list (t.get k s.store)) = rw read (inl refl) in
      let more = to_list (t.get k s.store) in
      inr (inl (e, (In-append e v more).1 (inr there), (same, bit)), shorter k s.store ks v)
  Pending-step j at (collecting (k ∷ ks) v) s (inr (inr later, set)) =
      inr (inr (later, set), shorter k s.store ks v)
  Pending-step j at (checking []) s (e, i, due) = absurd i
  Pending-step j at (checking (x ∷ es)) s (e, inl here, (same, bit)) =
      let set : x.causal_trigger_bit ≡ true =
        sym (ap (λ (y : WeightedEntity F D). y.causal_trigger_bit) here) ∙ bit in
      let id : x.entity_id ≡ j = sym (ap (λ (y : WeightedEntity F D). y.entity_id) here) ∙ same in
      rw set (inr (inl id, omega arith))
  Pending-step j at (checking (x ∷ es)) s (e, inr i, due) = elim (Bool-cases x.causal_trigger_bit) [
    | inl set ↦ rw set (inr (inr (e, i, due), omega arith))
    | inr unset ↦ rw unset (inr ((e, i, due), omega arith))
  ]
  Pending-step j at (notifying e es) s (inl here) =
      inl (ap (λ k. ch.sender.try_send (causal_trigger k at.trigger_at) s.tx) here)
  Pending-step j at (notifying e es) s (inr later) = inr (later, omega arith)
  Pending-step j at (weighing e es) s later = inr (later, omega arith)
