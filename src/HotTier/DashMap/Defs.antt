-- ===== src/HotTier/DashMap/Defs.antt =====
-- The interface of `DashMap<u64, V>`, its laws, and a map that meets them.
use mathlib.Core.Option
use atlas_hpc.Base.{ℕ, ◌≡◌, refl, Bool, Option, none, some, List, [], ◌==◌, nat_eq, if◌then◌else◌}
use atlas_hpc.Base.Dict
use atlas_hpc.Base.Dict.{Dict, Distinct, keep_if}

-- `M` is the map. `alter` is a write through the guard of `get_mut`, `alter_all` a loop over
-- `iter_mut`; `entries` lists what `iter` visits.
pub record DashMap (V M : Type 0) : Type 0 where
  pub empty : M
  pub get : ℕ → M → Option V
  pub insert : ℕ → V → M → M
  pub alter : ℕ → (V → V) → M → M
  pub alter_all : (V → V) → M → M
  pub retain : (ℕ → V → Bool) → M → M
  pub entries : M → List (ℕ × V)

pub record IsDashMap {V M : Type 0} (t : DashMap V M) : Type 0 where
  pub get-empty : (k : ℕ) → t.get k t.empty ≡ none
  pub get-insert :
      (k : ℕ) (v : V) (m : M) (j : ℕ)
      → t.get j (t.insert k v m) ≡ (if k == j then some v else t.get j m)
  pub get-alter :
      (k : ℕ) (f : V → V) (m : M) (j : ℕ)
      → t.get j (t.alter k f m) ≡ (if k == j then Option.map f (t.get j m) else t.get j m)
  pub get-alter_all :
      (f : V → V) (m : M) (j : ℕ) → t.get j (t.alter_all f m) ≡ Option.map f (t.get j m)
  pub get-retain :
      (p : ℕ → V → Bool) (m : M) (j : ℕ) → t.get j (t.retain p m) ≡ keep_if (p j) (t.get j m)
  -- `iter` visits what `get` finds, and every key once.
  pub lookup-entries : (m : M) (j : ℕ) → Dict.lookup j (t.entries m) ≡ t.get j m
  pub entries-Distinct : (m : M) → Distinct (t.entries m)

-- The laws can be met: a list of entries with distinct keys.
abbrev pub Table : Type 0 → Type 0
Table V = (m : Dict ℕ V) × Distinct m

abbrev pub table_map : {V : Type 0} → DashMap V (Table V)
table_map = record {
  empty = ([], tt);
  get = λ k m. Dict.lookup k m.0;
  insert = λ k v m. (Dict.insert k v m.0, Dict.insert-Distinct k v m.0 m.1);
  alter = λ k f m. (Dict.alter k f m.0, Dict.alter-Distinct k f m.0 m.1);
  alter_all = λ f m. (Dict.alter_all f m.0, Dict.alter_all-Distinct f m.0 m.1);
  retain = λ p m. (Dict.retain p m.0, Dict.retain-Distinct p m.0 m.1);
  entries = λ m. m.0;
}

pub table_laws : {V : Type 0} → IsDashMap (table_map {V = V})
unfolding Dict.lookup
table_laws = record {
  get-empty = λ k. refl;
  get-insert = λ k v m j. Dict.lookup-insert k v j m.0;
  get-alter = λ k f m j. Dict.lookup-alter k f j m.0;
  get-alter_all = λ f m j. Dict.lookup-alter_all f j m.0;
  get-retain = λ p m j. Dict.lookup-retain p j m.0 m.1;
  lookup-entries = λ m j. refl;
  entries-Distinct = λ m. m.1;
}
