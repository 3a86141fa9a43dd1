-- ===== src/Tests/Offloads.antt =====
-- Offload and seal on a disk that is a function from paths.
use Prim.Native.String.{String, ◌++◌, count}
use text.Mathlib.Text.{◌==◌ as str_eq}
use text.Mathlib.TextEquality.{eq_iff}
use text.Mathlib.TextLemmas.{length-append}
use atlas_hpc.Base.{
  ℕ, zero, suc, ◌≡◌, ◌≢◌, refl, sym, ap, subst, List, [], ◌∷◌, arith, if◌then◌else◌,
}
use atlas_hpc.Base.Outcome.{done, panic}
use atlas_hpc.Base.Result.{Result, ok, err}
use atlas_hpc.Intelligence.Offload.{
  AgentState, OffloadHandle, OffloadError, io, Disk, Serializer, Naming, SoftwareNvmeAdapter,
  blob_path, write_blob, offload, restore, drop_offload,
}
use atlas_hpc.Intelligence.Offload
use atlas_hpc.Intelligence.Offload.Slots.{IsDisk, offload_all, restore-offload_later}
use atlas_hpc.Intelligence.Tee.{Aead, Nonces, seal, unseal, unseal-seal}

abbrev disk : Disk (String → Result String AgentState) AgentState
disk = record {
  create_dir_all = λ fs. (fs, ok tt);
  write = λ path bytes fs. ((λ q. if str_eq q path then ok bytes else fs q), ok tt);
  read = λ path fs. fs path;
  remove_file = λ path fs. ((λ q. if str_eq q path then err "not found" else fs q), ok tt);
}

abbrev no_files : String → Result String AgentState
no_files path = err "not found"

disk-IsDisk : IsDisk disk
disk-IsDisk = record {
  read-write = λ path bytes fs h. ground (arith, eq_iff path path);
  read-write_other = λ path bytes fs other apart. ground (arith, eq_iff other path);
  read-remove_file = λ path fs h. ("not found", ground (arith, eq_iff path path));
  read-remove_file_other = λ path fs other apart. ground (arith, eq_iff other path);
}

abbrev serde : Serializer AgentState AgentState
serde = record { to_vec = λ a. ok a; from_slice = λ bytes. ok bytes }

-- A number as a row of strokes.
abbrev strokes : ℕ → String
strokes zero = ""
strokes (suc n) = "|" ++ strokes n

count-strokes : (n : ℕ) → count (strokes n) ≡ n
count-strokes zero = refl
count-strokes (suc n) = omega (arith, length-append "|" (strokes n), count-strokes n)

abbrev naming : Naming
naming = record { join = λ name. name; decimal = strokes }

paths_differ : (i j : ℕ) → i ≢ j → blob_path disk serde naming i ≢ blob_path disk serde naming j
unfolding blob_path
paths_differ i j differ same = differ (
    omega (
      arith,
      ap count same,
      length-append "atlas_offload_" (strokes i ++ ".json"),
      length-append (strokes i) ".json",
      count-strokes i,
      length-append "atlas_offload_" (strokes j ++ ".json"),
      length-append (strokes j) ".json",
      count-strokes j,
    ))

abbrev idle_state : AgentState
idle_state = record { agent_id = "reasoning-agent-0"; context_blob = 1 ∷ []; snapshotted_at_ns = 9 }

abbrev first_handle : OffloadHandle
first_handle = record { slot_id = 1 }

abbrev made : SoftwareNvmeAdapter × (String → Result String AgentState)
made = Offload.new disk serde naming no_files

offloaded : (offload disk serde naming idle_state made.0 made.1).2 ≡ ok first_handle
unfolding Offload.new offload write_blob
offloaded = refl

restore-offload_later_example :
    let after = offload disk serde naming idle_state made.0 made.1 in
    restore disk serde naming first_handle
      (offload_all disk serde naming (idle_state ∷ idle_state ∷ []) after.0 after.1)
    ≡ ok idle_state
unfolding Offload.new
restore-offload_later_example =
    restore-offload_later disk serde naming disk-IsDisk (λ a bytes h. sym h) paths_differ idle_state
      made.0 made.1 first_handle (idle_state ∷ idle_state ∷ []) offloaded (omega arith)

-- A cipher that puts a tag in front.
abbrev cipher : Aead (List ℕ) ℕ
cipher = record {
  encrypt = λ nonce plaintext. ok (7 ∷ plaintext);
  decrypt = λ nonce ciphertext. elim ciphertext [ [] ↦ err "tag" | x ∷ rest ↦ ok rest ];
}

abbrev bytes_serde : Serializer ℕ (List ℕ)
bytes_serde = record {
  to_vec = λ n. ok (n ∷ []);
  from_slice = λ bytes. elim bytes [ [] ↦ err "eof" | x ∷ rest ↦ ok x ];
}

-- A nonce of one byte.
abbrev one_byte : Nonces (List ℕ) ℕ
one_byte = record {
  to_vec = λ n. n ∷ [];
  from_slice =
      λ bytes. elim bytes [ [] ↦ panic | x ∷ rest ↦ elim rest [ [] ↦ done x | y ∷ more ↦ panic ] ];
}

sealed : seal cipher one_byte bytes_serde 5 42 ≡ ok (5 ∷ [], 7 ∷ 42 ∷ [])
unfolding seal
sealed = refl

cipher-IsAead :
    (nonce : ℕ) (plaintext ciphertext : List ℕ)
    → cipher.encrypt nonce plaintext ≡ ok ciphertext
    → cipher.decrypt nonce ciphertext ≡ ok plaintext
cipher-IsAead nonce plaintext ciphertext h =
    let e : 7 ∷ plaintext ≡ ciphertext = cc in
    subst (λ c. cipher.decrypt nonce c ≡ ok plaintext) e refl

bytes_serde-IsSerializer :
    (n : ℕ) (bytes : List ℕ) → bytes_serde.to_vec n ≡ ok bytes → bytes_serde.from_slice bytes ≡ ok n
bytes_serde-IsSerializer n bytes h =
    let e : n ∷ [] ≡ bytes = cc in subst (λ c. bytes_serde.from_slice c ≡ ok n) e refl

unseal-seal_example : unseal cipher one_byte bytes_serde (5 ∷ []) (7 ∷ 42 ∷ []) ≡ done (ok 42)
unseal-seal_example =
    unseal-seal cipher one_byte bytes_serde cipher-IsAead (λ n. refl) bytes_serde-IsSerializer 5 42
      (5 ∷ [], 7 ∷ 42 ∷ []) sealed
