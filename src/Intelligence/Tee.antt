-- ===== src/Intelligence/Tee.antt =====
-- crates/intelligence/src/tee.rs: `SoftwareTeeGuard`. The cipher with its key, the random nonce and
-- the serialiser are parameters; `B` is a sequence of bytes.
use Prim.Native.String.{String, ◌++◌}
use atlas_hpc.Base.{◌≡◌, refl, inl, inr, arith}
use atlas_hpc.Base.Outcome.{Outcome, done, ◌>>=◌}
use atlas_hpc.Base.Result.{Result, ok, map_err, and_then, Result-cases}
use atlas_hpc.Intelligence.Offload.{Serializer}
use atlas_hpc.Intelligence.Offload.Slots.{IsSerializer}

pub data TeeError : Type 0 where
  serialization : String → TeeError
  encryption : String → TeeError
  decryption : String → TeeError

-- `Display::fmt`.
unfoldable pub error_text : TeeError → String
error_text (serialization e) = "TeeError::Serialization: " ++ e
error_text (encryption e) = "TeeError::Encryption: " ++ e
error_text (decryption e) = "TeeError::Decryption: " ++ e

-- AES-256-GCM under one key: a nonce and a text to a ciphertext, and back; `N` is a nonce.
pub record Aead (B N : Type 0) : Type 0 where
  pub encrypt : N → B → Result String B
  pub decrypt : N → B → Result String B

-- `nonce.to_vec`, and `Nonce::from_slice`, which panics on a slice that is no nonce.
pub record Nonces (B N : Type 0) : Type 0 where
  pub to_vec : N → B
  pub from_slice : B → Outcome N

-- `Aes256Gcm::new` and `Key::from_slice`; `K` is a key.
pub record Aes (B N K : Type 0) : Type 0 where
  pub new : K → Aead B N
  pub from_slice : B → K

pub record SoftwareTeeGuard (B N : Type 0) : Type 0 where
  pub cipher : Aead B N

module _ {B N K : Type 0} (aes : Aes B N K) where
  -- The key that `generate_key` draws is an argument.
  unfoldable pub new_ephemeral : K → SoftwareTeeGuard B N
  new_ephemeral key = record { cipher = aes.new key }

  unfoldable pub with_key : B → SoftwareTeeGuard B N
  with_key key_bytes = record { cipher = aes.new (aes.from_slice key_bytes) }

-- The methods of a guard with this cipher.
module _ {A B N : Type 0} (cipher : Aead B N) (nonces : Nonces B N) (serde : Serializer A B) where
  -- The nonce that is drawn is an argument.
  unfoldable pub seal : N → A → Result TeeError (B × B)
  seal nonce value = and_then (map_err serialization (serde.to_vec value)) (λ plaintext.
      and_then (map_err encryption (cipher.encrypt nonce plaintext))
        (λ ciphertext. ok (nonces.to_vec nonce, ciphertext)))

  unfoldable pub unseal : B → B → Outcome (Result TeeError A)
  unseal nonce_bytes ciphertext = do
    nonce ← nonces.from_slice nonce_bytes
    done (
        and_then (map_err decryption (cipher.decrypt nonce ciphertext))
          (λ plaintext. map_err serialization (serde.from_slice plaintext)))

-- The documented behaviour of the cipher: what it encrypts, it decrypts under the same nonce.
abbrev pub IsAead : {B N : Type 0} → Aead B N → Type 0
IsAead {B} {N} cipher =
    (nonce : N) (plaintext ciphertext : B)
    → cipher.encrypt nonce plaintext ≡ ok ciphertext
    → cipher.decrypt nonce ciphertext ≡ ok plaintext

-- The bytes of a nonce are one.
abbrev pub IsNonces : {B N : Type 0} → Nonces B N → Type 0
IsNonces {B} {N} nonces = (nonce : N) → nonces.from_slice (nonces.to_vec nonce) ≡ done nonce

module _ {A B N : Type 0} (cipher : Aead B N) (nonces : Nonces B N) (serde : Serializer A B)
    (cipher_laws : IsAead cipher) (nonce_laws : IsNonces nonces)
    (serde_laws : IsSerializer serde) where
  -- If the cipher decrypts what it encrypts, the bytes of a nonce give the nonce, and the serialiser
  -- reads what it writes, then `unseal` returns and gives back the value from what `seal` returned.
  pub unseal-seal :
      (nonce : N) (value : A) (sealed : B × B)
      → seal cipher nonces serde nonce value ≡ ok sealed
      → unseal cipher nonces serde sealed.0 sealed.1 ≡ done (ok value)
  unfolding seal unseal
  unseal-seal nonce value sealed h = elim (Result-cases (serde.to_vec value)) [
    | inl (plaintext, wrote) ↦ elim (Result-cases (cipher.encrypt nonce plaintext)) [
      | inl (ciphertext, hidden) ↦
          let result : Result TeeError (B × B) = ok (nonces.to_vec nonce, ciphertext) in
          let same : result ≡ ok sealed = ground (arith, wrote, hidden, h) in
          let e : sealed ≡ (nonces.to_vec nonce, ciphertext) = cc in
          let read = nonce_laws nonce in
          let opened = cipher_laws nonce plaintext ciphertext hidden in
          let parsed = serde_laws value plaintext wrote in
          rw e (rw read (rw opened (rw parsed refl)))
      | inr (e, bad) ↦ absurd (ground (arith, wrote, bad, h))
    ]
    | inr (e, bad) ↦ absurd (ground (arith, bad, h))
  ]
