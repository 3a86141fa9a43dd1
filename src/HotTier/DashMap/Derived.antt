-- ===== src/HotTier/DashMap/Derived.antt =====
-- What follows from the laws: counts do not depend on the order in which `iter` visits.
use atlas_hpc.Base.{ℕ, ◌+◌, ◌≡◌, ◌∙◌, Bool, true, nat_eq, length, if◌then◌else◌, arith}
use atlas_hpc.Base.Dict
use atlas_hpc.Base.Dict.{Dict, Distinct, keep_if, is_some, count_where}
use atlas_hpc.HotTier.DashMap.Defs.{DashMap, IsDashMap}

module _ {V M : Type 0} (t : DashMap V M) where
  -- `map.len()`.
  abbrev pub len : M → ℕ
  len m = length (t.entries m)

  module _ (laws : IsDashMap t) where
    pub count-entries :
        (p : ℕ → V → Bool) (m : M) (n : Dict ℕ V)
        → Distinct n
        → ((j : ℕ) → t.get j m ≡ Dict.lookup j n)
        → count_where p (t.entries m) ≡ count_where p n
    count-entries p m n d h =
        Dict.count_where-eq p (t.entries m) n (laws.entries-Distinct m) d
          (λ j. laws.lookup-entries m j ∙ h j)

    pub len-eq :
        (m : M) (n : Dict ℕ V)
        → Distinct n
        → ((j : ℕ) → t.get j m ≡ Dict.lookup j n)
        → len m ≡ length n
    len-eq m n d h = omega (
      arith,
      Dict.length-eq-count_where (t.entries m),
      Dict.length-eq-count_where n,
      count-entries (λ _ _. true) m n d h,
    )

    -- An insert of a new key adds one to `len`, an overwrite nothing.
    pub len-insert :
        (k : ℕ) (v : V) (m : M)
        → len (t.insert k v m) ≡ (if is_some (t.get k m) then len m else len m + 1)
    len-insert k v m =
        len-eq (t.insert k v m) (Dict.insert k v (t.entries m))
          (Dict.insert-Distinct k v (t.entries m) (laws.entries-Distinct m)) same
        ∙ Dict.length-insert k v (t.entries m)
        ∙ rw (laws.lookup-entries m k)
      where
        same : (j : ℕ) → t.get j (t.insert k v m) ≡ Dict.lookup j (Dict.insert k v (t.entries m))
        same j = rw (laws.get-insert k v m j, Dict.lookup-insert k v j, laws.lookup-entries m j)

    -- A write through `get_mut` leaves `len` alone.
    pub len-alter : (k : ℕ) (f : V → V) (m : M) → len (t.alter k f m) ≡ len m
    len-alter k f m =
        len-eq (t.alter k f m) (Dict.alter k f (t.entries m))
          (Dict.alter-Distinct k f (t.entries m) (laws.entries-Distinct m)) same
        ∙ Dict.length-alter k f (t.entries m)
      where
        same : (j : ℕ) → t.get j (t.alter k f m) ≡ Dict.lookup j (Dict.alter k f (t.entries m))
        same j = rw (laws.get-alter k f m j, Dict.lookup-alter k f j, laws.lookup-entries m j)

    -- What `iter` counts after a loop over `iter_mut`.
    pub count-alter_all :
        (p : ℕ → V → Bool) (f : V → V) (m : M)
        → count_where p (t.entries (t.alter_all f m)) ≡ count_where (λ j v. p j (f v)) (t.entries m)
    count-alter_all p f m =
        count-entries p (t.alter_all f m) (Dict.alter_all f (t.entries m))
          (Dict.alter_all-Distinct f (t.entries m) (laws.entries-Distinct m)) same
        ∙ Dict.count_where-alter_all p f (t.entries m)
      where
        same : (j : ℕ) → t.get j (t.alter_all f m) ≡ Dict.lookup j (Dict.alter_all f (t.entries m))
        same j = rw (laws.get-alter_all f m j, Dict.lookup-alter_all f j, laws.lookup-entries m j)

    -- `retain` leaves as many entries as pass its test.
    pub len-retain : (p : ℕ → V → Bool) (m : M) → len (t.retain p m) ≡ count_where p (t.entries m)
    len-retain p m =
        len-eq (t.retain p m) (Dict.retain p (t.entries m))
          (Dict.retain-Distinct p (t.entries m) (laws.entries-Distinct m)) same
        ∙ Dict.count_where-retain p (t.entries m)
      where
        same : (j : ℕ) → t.get j (t.retain p m) ≡ Dict.lookup j (Dict.retain p (t.entries m))
        same j = rw (
          laws.get-retain p m j,
          Dict.lookup-retain p j (t.entries m) (laws.entries-Distinct m),
          laws.lookup-entries m j,
        )
