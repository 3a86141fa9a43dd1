-- ===== src/Harness/Demo.antt =====
-- src/main.rs: the demonstrations of the guard and of the offload at start-up. `expect` panics.
use atlas_hpc.Base.{ℕ, ◌≡◌, ◌≢◌, refl, List, ◌⊎◌, inl, inr}
use atlas_hpc.Base.Outcome.{Outcome, done, panic, ◌>>=◌}
use atlas_hpc.Base.Result.{Result, ok, err, Result-cases}
use atlas_hpc.Intelligence.Offload.{
  AgentState, OffloadError, Disk, Serializer, Naming, new, offload, restore, drop_offload,
  blob_path,
}
use atlas_hpc.Intelligence.Offload.Slots.{IsDisk, IsSerializer, restore-offload}
use atlas_hpc.Intelligence.Tee.{
  Aes, Nonces, IsNonces, IsAead, TeeError, new_ephemeral, seal, unseal, unseal-seal,
}

abbrev pub expect : {E A : Type 0} → Result E A → Outcome A
expect (ok a) = done a
expect (err e) = panic

-- The guard seals 42 and unseals it.
unfoldable pub tee_demo :
    {B N K : Type 0} → Aes B N K → Nonces B N → Serializer ℕ B → K → N → Outcome ℕ
tee_demo aes nonces serde key nonce = do
  sealed ← expect (seal (new_ephemeral aes key).cipher nonces serde nonce 42)
  opened ← unseal (new_ephemeral aes key).cipher nonces serde sealed.0 sealed.1
  expect opened

-- `state`; `blob` is the bytes of "idle-state-blob".
abbrev pub demo_state : List ℕ → ℕ → AgentState
demo_state blob now = record {
  agent_id = "reasoning-agent-0";
  context_blob = blob;
  snapshotted_at_ns = now;
}

-- Offload, restore and drop: the restored state, and the disk. The result of the drop is ignored.
unfoldable pub nvme_demo :
    {Fs B : Type 0}
    → Disk Fs B
    → Serializer AgentState B
    → Naming
    → AgentState
    → Fs
    → Outcome (AgentState × Fs)
nvme_demo disk serde naming state fs =
    let made = new disk serde naming fs in
    let stored = offload disk serde naming state made.0 made.1 in
    expect stored.2 >>= λ handle. expect (restore disk serde naming handle stored.1) >>= λ restored.
    done (restored, (drop_offload disk serde naming handle stored.1).0)

-- If the cipher decrypts what it encrypts, the bytes of a nonce give the nonce, and the serialiser
-- reads what it writes, the demonstration of the guard gives 42 back, or panics because the sealing
-- failed.
pub tee_demo_lem :
    {B N K : Type 0} (aes : Aes B N K) (nonces : Nonces B N) (serde : Serializer ℕ B) (key : K)
    (nonce : N)
    → IsAead (aes.new key)
    → IsNonces nonces
    → IsSerializer serde
    → (tee_demo aes nonces serde key nonce ≡ done 42)
      ⊎ ((e : TeeError) × (seal (aes.new key) nonces serde nonce 42 ≡ err e))
unfolding tee_demo new_ephemeral
tee_demo_lem aes nonces serde key nonce cipher_laws nonce_laws serde_laws =
    let cipher = aes.new key in
    elim (Result-cases (seal cipher nonces serde nonce 42)) [
      | inl (sealed, good) ↦
          let opened =
            unseal-seal cipher nonces serde cipher_laws nonce_laws serde_laws nonce 42 sealed
              good in
          inl (rw good (rw opened refl))
      | inr (e, bad) ↦ inr (e, bad)
    ]

-- If slots have different paths and the file system and the serialiser behave as documented, the
-- demonstration of the offload gives the state back, or panics because the offload failed.
pub nvme_demo_lem :
    {Fs B : Type 0} (disk : Disk Fs B) (serde : Serializer AgentState B) (naming : Naming)
    → IsDisk disk
    → IsSerializer serde
    → ((i j : ℕ) → i ≢ j → blob_path disk serde naming i ≢ blob_path disk serde naming j)
    → (state : AgentState) (fs : Fs)
    → ((fs' : Fs) × (nvme_demo disk serde naming state fs ≡ done (state, fs')))
      ⊎ ((e : OffloadError) × (let made = new disk serde naming fs in
            (offload disk serde naming state made.0 made.1).2 ≡ err e))
unfolding nvme_demo
nvme_demo_lem disk serde naming disk_laws serde_laws paths state fs =
    let made = new disk serde naming fs in
    let stored = offload disk serde naming state made.0 made.1 in
    elim (Result-cases stored.2) [
      | inl (handle, good) ↦
          let (slot, back) =
            restore-offload disk serde naming disk_laws serde_laws paths state made.0 made.1 handle
              good in
          inl ((drop_offload disk serde naming handle stored.1).0, rw good (rw back refl))
      | inr (e, bad) ↦ inr (e, bad)
    ]
