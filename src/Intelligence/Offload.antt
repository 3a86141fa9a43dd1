-- ===== src/Intelligence/Offload.antt =====
-- crates/intelligence/src/offload.rs: `SoftwareNvmeAdapter`. The file system and the serialiser are
-- interfaces; `B` is what is written to a file.
pub mod Slots
use Prim.Native.String.{String, ◌++◌}
use atlas_hpc.Base.{ℕ, ◌+◌, ◌%◌, ◌^◌, List}
use atlas_hpc.Base.Result.{Result, ok, err, map_err, and_then}

-- `context_blob` is a list of bytes.
pub record AgentState : Type 0 where
  pub agent_id : String
  pub context_blob : List ℕ
  pub snapshotted_at_ns : ℕ

pub record OffloadHandle : Type 0 where
  pub slot_id : ℕ

pub data OffloadError : Type 0 where
  io : String → OffloadError
  serialization : String → OffloadError

-- `Display::fmt`.
unfoldable pub error_text : OffloadError → String
error_text (io e) = "OffloadError::Io: " ++ e
error_text (serialization e) = "OffloadError::Serialization: " ++ e

-- `std::fs`, with errors as texts. `Fs` is the state of the disk; `create_dir_all` is of the directory
-- of the adapter.
pub record Disk (Fs B : Type 0) : Type 0 where
  pub create_dir_all : Fs → Fs × Result String Unit
  pub write : String → B → Fs → Fs × Result String Unit
  pub read : String → Fs → Result String B
  pub remove_file : String → Fs → Fs × Result String Unit

-- `serde_json::to_vec` and `from_slice`.
pub record Serializer (A B : Type 0) : Type 0 where
  pub to_vec : A → Result String B
  pub from_slice : B → Result String A

-- `join` is `Path::join` with the directory, `decimal` the printed number.
pub record Naming : Type 0 where
  pub join : String → String
  pub decimal : ℕ → String

-- The directory is in `Naming`.
pub record SoftwareNvmeAdapter : Type 0 where
  pub next_slot : ℕ

module _ {Fs B : Type 0} (disk : Disk Fs B) (serde : Serializer AgentState B)
    (naming : Naming) where
  -- `SoftwareNvmeAdapter::new`, and the disk after it. That the directory cannot be made is ignored.
  unfoldable pub new : Fs → SoftwareNvmeAdapter × Fs
  new fs = (record { next_slot = 1 }, (disk.create_dir_all fs).0)

  unfoldable pub blob_path : ℕ → String
  blob_path slot_id = naming.join ("atlas_offload_" ++ naming.decimal slot_id ++ ".json")

  -- What is left of `offload` once the state is serialised.
  unfoldable pub write_blob : ℕ → B → Fs → Fs × Result OffloadError OffloadHandle
  write_blob slot_id bytes fs =
      let written = disk.write (blob_path slot_id) bytes fs in
      (
        written.0,
        and_then (map_err io written.1) (λ done_writing. ok (record { slot_id = slot_id })),
      )

  -- `fetch_add` wraps around. The slot is taken even if what follows fails.
  unfoldable pub offload :
      AgentState
      → SoftwareNvmeAdapter
      → Fs
      → SoftwareNvmeAdapter × Fs × Result OffloadError OffloadHandle
  offload state a fs =
      let taken : SoftwareNvmeAdapter = record { next_slot = (a.next_slot + 1) % 2 ^ 64 } in
      elim (serde.to_vec state) [
        | err e ↦ (taken, fs, err (serialization e))
        | ok bytes ↦ let written = write_blob a.next_slot bytes fs in (taken, written.0, written.1)
      ]

  unfoldable pub restore : OffloadHandle → Fs → Result OffloadError AgentState
  restore handle fs =
      and_then (map_err io (disk.read (blob_path handle.slot_id) fs))
        (λ bytes. map_err serialization (serde.from_slice bytes))

  unfoldable pub drop_offload : OffloadHandle → Fs → Fs × Result OffloadError Unit
  drop_offload handle fs =
      let removed = disk.remove_file (blob_path handle.slot_id) fs in
      (removed.0, map_err io removed.1)
