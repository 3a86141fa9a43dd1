-- ===== src/Intelligence/Offload/Slots.antt =====
-- An offloaded state can be restored until its slot is dropped
-- (crates/intelligence/src/offload.rs).
use Prim.Native.String.{String}
use atlas_hpc.Base.{
  ℕ, ◌+◌, ◌%◌, ◌^◌, ◌<◌, ◌≡◌, ◌≢◌, refl, ◌∙◌, ap, List, [], ◌∷◌, length, arith, inl, inr,
}
use atlas_hpc.Base.Result.{Result, ok, err, Result-cases}
use atlas_hpc.Intelligence.Offload.{
  AgentState, OffloadHandle, OffloadError, io, Disk, Serializer, Naming, SoftwareNvmeAdapter,
  blob_path, write_blob, offload, restore, drop_offload,
}

-- A write or a removal touches one file; a file that was written can be read, one that was removed
-- cannot.
pub record IsDisk {Fs B : Type 0} (disk : Disk Fs B) : Type 0 where
  pub read-write :
      (path : String) (bytes : B) (fs : Fs)
      → (disk.write path bytes fs).1 ≡ ok tt
      → disk.read path (disk.write path bytes fs).0 ≡ ok bytes
  pub read-write_other :
      (path : String) (bytes : B) (fs : Fs) (other : String)
      → other ≢ path
      → disk.read other (disk.write path bytes fs).0 ≡ disk.read other fs
  pub read-remove_file :
      (path : String) (fs : Fs)
      → (disk.remove_file path fs).1 ≡ ok tt
      → (e : String) × (disk.read path (disk.remove_file path fs).0 ≡ err e)
  pub read-remove_file_other :
      (path : String) (fs : Fs) (other : String)
      → other ≢ path
      → disk.read other (disk.remove_file path fs).0 ≡ disk.read other fs

abbrev pub IsSerializer : {A B : Type 0} → Serializer A B → Type 0
IsSerializer {A} {B} serde =
    (a : A) (bytes : B) → serde.to_vec a ≡ ok bytes → serde.from_slice bytes ≡ ok a

module _ {Fs B : Type 0} (disk : Disk Fs B) (serde : Serializer AgentState B)
    (naming : Naming) where
  -- Offloads of further states.
  unfoldable pub offload_all : List AgentState → SoftwareNvmeAdapter → Fs → Fs
  offload_all [] a fs = fs
  offload_all (state ∷ states) a fs =
      let next = offload disk serde naming state a fs in offload_all states next.0 next.1

module _ {Fs B : Type 0} (disk : Disk Fs B) (serde : Serializer AgentState B) (naming : Naming)
    (disk_laws : IsDisk disk) (serde_laws : IsSerializer serde)
    (paths_differ : (i j : ℕ)
      → i ≢ j
      → blob_path disk serde naming i ≢ blob_path disk serde naming j) where
  -- An offload leaves alone what another slot holds.
  restore-offload_other :
      (state : AgentState) (a : SoftwareNvmeAdapter) (fs : Fs) (handle : OffloadHandle)
      → handle.slot_id ≢ a.next_slot
      → restore disk serde naming handle (offload disk serde naming state a fs).1
        ≡ restore disk serde naming handle fs
  unfolding offload write_blob restore
  restore-offload_other state a fs handle differ =
      let place = blob_path disk serde naming a.next_slot in
      let here = blob_path disk serde naming handle.slot_id in
      let apart = paths_differ handle.slot_id a.next_slot differ in
      elim (Result-cases (serde.to_vec state)) [
        | inl (bytes, wrote) ↦
            let other = disk_laws.read-write_other place bytes fs here apart in
            ground (arith, wrote, other)
        | inr (e, failed) ↦ ground (arith, failed)
      ]

  next_slot_offload :
      (state : AgentState) (a : SoftwareNvmeAdapter) (fs : Fs)
      → (offload disk serde naming state a fs).0.next_slot ≡ (a.next_slot + 1) % 2 ^ 64
  unfolding offload
  next_slot_offload state a fs = ground arith

  restore-offload_all :
      (states : List AgentState) (a : SoftwareNvmeAdapter) (fs : Fs) (handle : OffloadHandle)
      → handle.slot_id < a.next_slot
      → a.next_slot + length states < 2 ^ 64
      → restore disk serde naming handle (offload_all disk serde naming states a fs)
        ≡ restore disk serde naming handle fs
  unfolding offload_all
  restore-offload_all [] a fs handle earlier few = refl
  restore-offload_all (state ∷ states) a fs handle earlier few =
      let slot = next_slot_offload state a fs in
      restore-offload_all states (offload disk serde naming state a fs).0
        (offload disk serde naming state a fs).1 handle (omega arith) (omega arith)
      ∙ restore-offload_other state a fs handle (omega arith)

  pub restore-offload :
      (state : AgentState) (a : SoftwareNvmeAdapter) (fs : Fs) (handle : OffloadHandle)
      → (offload disk serde naming state a fs).2 ≡ ok handle
      → (handle.slot_id ≡ a.next_slot)
        × (restore disk serde naming handle (offload disk serde naming state a fs).1 ≡ ok state)
  unfolding offload write_blob restore
  restore-offload state a fs handle h = elim (Result-cases (serde.to_vec state)) [
    | inl (bytes, wrote) ↦
        let place = blob_path disk serde naming a.next_slot in
        elim (Result-cases (disk.write place bytes fs).1) [
          | inl (u, good) ↦
              let made : OffloadHandle = record { slot_id = a.next_slot } in
              let result : Result OffloadError OffloadHandle = ok made in
              let same : result ≡ ok handle = ground (arith, wrote, good, h) in
              let e : handle ≡ made = cc in
              let slot : handle.slot_id ≡ a.next_slot = ap (λ (x : OffloadHandle). x.slot_id) e in
              let read = disk_laws.read-write place bytes fs good in
              let parsed = serde_laws state bytes wrote in
              (slot, rw slot (ground (arith, wrote, read, parsed)))
          | inr (e, bad) ↦ absurd (ground (arith, wrote, bad, h))
        ]
    | inr (e, failed) ↦ absurd (ground (arith, failed, h))
  ]

  -- If slots have different paths and the file system and the serialiser behave as documented, a
  -- state whose `offload` succeeds is restored as it was, whatever is offloaded after it, as long
  -- as the slots do not pass 2^64.
  pub restore-offload_later :
      (state : AgentState) (a : SoftwareNvmeAdapter) (fs : Fs) (handle : OffloadHandle)
      (later : List AgentState)
      → (offload disk serde naming state a fs).2 ≡ ok handle
      → a.next_slot + 1 + length later < 2 ^ 64
      → let after = offload disk serde naming state a fs in
        restore disk serde naming handle (offload_all disk serde naming later after.0 after.1)
        ≡ ok state
  restore-offload_later state a fs handle later h few =
      let after = offload disk serde naming state a fs in
      let (slot, restored) = restore-offload state a fs handle h in
      let next = next_slot_offload state a fs in
      restore-offload_all later after.0 after.1 handle (omega arith) (omega arith) ∙ restored

  -- If slots have different paths and the file of a slot is removed, `restore` of that slot fails
  -- with an I/O error, and of every other slot is as it was.
  restore-drop_offload :
      (handle other : OffloadHandle) (fs : Fs)
      → (drop_offload disk serde naming handle fs).1 ≡ ok tt
      → ((e : String) × (restore disk serde naming handle
              (drop_offload disk serde naming handle fs).0
            ≡ err (io e)))
        × (other.slot_id ≢ handle.slot_id
            → restore disk serde naming other (drop_offload disk serde naming handle fs).0
              ≡ restore disk serde naming other fs)
  unfolding drop_offload restore
  restore-drop_offload handle other fs h =
      let place = blob_path disk serde naming handle.slot_id in
      elim (Result-cases (disk.remove_file place fs).1) [
        | inl (u, good) ↦
            let (e, gone) = disk_laws.read-remove_file place fs good in
            (
              (e, ground (arith, gone)),
              λ differ.
                  let apart = paths_differ other.slot_id handle.slot_id differ in
                  let kept =
                    disk_laws.read-remove_file_other place fs
                      (blob_path disk serde naming other.slot_id) apart in
                  ground (arith, kept),
            )
        | inr (e, bad) ↦ absurd (ground (arith, bad, h))
      ]
