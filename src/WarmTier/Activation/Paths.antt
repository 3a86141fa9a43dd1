-- ===== src/WarmTier/Activation/Paths.antt =====
-- What the traversal is to reach: labels by hops through an entity that carries both, and the
-- entities under those labels.
use atlas_hpc.Base.{ℕ, zero, suc, ◌≤◌, In, nat_eq}
use atlas_hpc.Types.Label.{LabelId, label_eq}
use atlas_hpc.WarmTier.Graph.{GraphInner}
use atlas_hpc.WarmTier.Graph.Tagging.{labels_of, entities_of}

-- `hops` labels away from the start.
pub data Reached {F D : Type 0} (g : GraphInner F D) (start_label : LabelId)
    : ℕ → LabelId → Type 0 where
  here : Reached g start_label zero start_label
  hop :
      {hops : ℕ} {l : LabelId} (e : ℕ) (next : LabelId)
      → Reached g start_label hops l
      → In e (entities_of g l)
      → In next (labels_of g e)
      → Reached g start_label (suc hops) next

-- An entity under a label that is at most `max_hops` away.
abbrev pub Within : {F D : Type 0} → GraphInner F D → LabelId → ℕ → ℕ → Type 0
Within g start_label max_hops e =
    (hops : ℕ) × (l : LabelId) × (hops ≤ max_hops)
    × Reached g start_label hops l
    × In e (entities_of g l)
