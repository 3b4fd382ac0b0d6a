-- ===== src/Database/Stream/Order.antt =====
-- `nextFrame` of internal/database/decrypt_stream.go on a frame at another block index than its own.
use cloudnan_agent.Base.{
  ℕ, zero, suc, ◌^◌, ◌≤◌, ◌<◌, [], ◌∷◌, none, ◌≡◌, ◌≢◌, refl, ap, ◌∙◌, arith, length, Bytes, err,
}
use cloudnan_agent.Database.Stream.{Aead, stream_block_size, stream_nonce_size, put_uint64}
use cloudnan_agent.Database.Stream.Decrypt.{next_frame, authenticate, opened}
use cloudnan_agent.Database.Stream.Framed.{framed}
use cloudnan_agent.Database.Stream.Reading.{whole, next_frame-sealed}

-- Byte `k` of eight bytes.
abbrev byte : ℕ → Bytes → ℕ
byte k [] = 0
byte zero (c ∷ b) = c
byte (suc k) (c ∷ b) = byte k b

put_uint64-injective : (i j : ℕ) → i < 2 ^ 64 → j < 2 ^ 64 → put_uint64 i ≡ put_uint64 j → i ≡ j
unfolding put_uint64
put_uint64-injective i j hi hj e = omega (
  arith,
  ap (byte 0) e,
  ap (byte 1) e,
  ap (byte 2) e,
  ap (byte 3) e,
  ap (byte 4) e,
  ap (byte 5) e,
  ap (byte 6) e,
  ap (byte 7) e,
)

eight_bytes : (i : ℕ) → length (put_uint64 i) ≡ 8
unfolding put_uint64
eight_bytes i = refl

-- A frame sealed as block i is rejected as not authentic at every other block index, both
-- below 2 to the 64, for an AEAD that opens nothing under other additional data of eight
-- bytes.
pub next_frame-displaced :
    (aead : Aead)
    → ((nonce plain aad other : Bytes)
        → length aad ≡ 8
        → length other ≡ 8
        → aad ≢ other
        → aead.unseal nonce (aead.seal nonce plain aad) other ≡ none)
    → (i j : ℕ) (nonce block rest : Bytes) → i < 2 ^ 64
    → j < 2 ^ 64
    → i ≢ j
    → length nonce ≡ stream_nonce_size
    → length block ≤ stream_block_size
    → next_frame aead j (whole (framed aead i nonce block rest)) ≡ err authenticate
next_frame-displaced aead authentic i j nonce block rest hi hj distinct hn hb =
    next_frame-sealed aead i j nonce block rest hn hb
    ∙ ap (λ o. opened aead o (whole rest))
        (authentic nonce block (put_uint64 i) (put_uint64 j) (eight_bytes i) (eight_bytes j)
          (λ e. distinct (put_uint64-injective i j hi hj e)))
