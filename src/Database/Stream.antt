-- ===== src/Database/Stream.antt =====
-- internal/database/encrypt_stream.go and decrypt_stream.go: a byte stream cut into blocks, each
-- sealed by AES-256-GCM and framed as nonce, length of the ciphertext (4 bytes) and ciphertext.
pub mod Encrypt
pub mod Decrypt
pub mod Framed
pub mod Frames
pub mod Reading
pub mod RoundTrip
pub mod Order
mod Examples
use cloudnan_agent.Base.{
  ℕ, ◌+◌, ◌*◌, ◌/◌, ◌%◌, ◌^◌, ◌≤◌, [], ◌∷◌, ◌++◌, Option, some, ◌≡◌, length, Bytes,
}

abbrev pub stream_block_size : ℕ
stream_block_size = 2 ^ 20

abbrev pub stream_nonce_size : ℕ
stream_nonce_size = 12

-- The AEAD of crypto/cipher under one key, with what its documentation promises: opening undoes
-- sealing under the same nonce and additional data, and a ciphertext is longer by the overhead.
pub record Aead : Type 0 where
  pub seal : Bytes → Bytes → Bytes → Bytes
  pub unseal : Bytes → Bytes → Bytes → Option Bytes
  pub overhead : ℕ
  pub overhead_eq : overhead ≡ 16
  pub unseal_seal : (nonce plain aad : Bytes) → unseal nonce (seal nonce plain aad) aad ≡ some plain
  pub length_seal :
      (nonce plain aad : Bytes) → length (seal nonce plain aad) ≡ length plain + overhead

-- Byte `k` of a number, counted from the low end.
abbrev pub byte_at : ℕ → ℕ → ℕ
byte_at n k = n / 2 ^ (8 * k) % 256

-- `binary.BigEndian.PutUint32` and `PutUint64`.
unfoldable pub put_uint32 : ℕ → Bytes
put_uint32 n = byte_at n 3 ∷ byte_at n 2 ∷ byte_at n 1 ∷ byte_at n 0 ∷ []

unfoldable pub put_uint64 : ℕ → Bytes
put_uint64 n =
    byte_at n 7
    ∷ byte_at n 6
    ∷ byte_at n 5
    ∷ byte_at n 4
    ∷ byte_at n 3
    ∷ byte_at n 2
    ∷ byte_at n 1
    ∷ byte_at n 0
    ∷ []

-- `binary.BigEndian.Uint32` of four bytes.
unfoldable pub uint32 : Bytes → ℕ
uint32 (a ∷ b ∷ c ∷ d ∷ []) = a * 2 ^ 24 + b * 2 ^ 16 + c * 2 ^ 8 + d
uint32 _ = 0
