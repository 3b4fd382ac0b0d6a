-- ===== src/Database/Stream/Framed.antt =====
-- What the two streams agree on: a byte string that is a row of frames, and its plaintext.
use cloudnan_agent.Base.{
  ℕ, ◌+◌, ◌%◌, ◌^◌, ◌≤◌, ◌<◌, [], ◌++◌, ◌≡◌, refl, subst, arith, length, Bytes, append_assoc,
  append-nil,
}
use cloudnan_agent.Database.Stream.{
  Aead, stream_block_size, stream_nonce_size, put_uint32, put_uint64, uint32,
}

module _ (aead : Aead) where
  abbrev pub ciphertext : ℕ → Bytes → Bytes → Bytes
  ciphertext idx nonce block = aead.seal nonce block (put_uint64 idx)

  -- One frame, in front of what follows it.
  abbrev pub framed : ℕ → Bytes → Bytes → Bytes → Bytes
  framed idx nonce block rest =
      nonce
      ++ (put_uint32 (length (ciphertext idx nonce block) % 2 ^ 32)
          ++ (ciphertext idx nonce block ++ rest))

  -- Frames from one block index up to another.
  pub data Framed : ℕ → ℕ → Bytes → Bytes → Type 0 where
    no_frames : {a b : ℕ} → a ≡ b → Framed a b [] []
    frame :
        (a b : ℕ) (nonce block : Bytes) {text plain : Bytes}
        → length nonce ≡ stream_nonce_size
        → length block ≤ stream_block_size
        → Framed ((a + 1) % 2 ^ 64) b text plain
        → Framed a b (framed a nonce block text) (block ++ plain)

  pub framed_append :
      (idx : ℕ) (nonce block rest more : Bytes)
      → framed idx nonce block rest ++ more ≡ framed idx nonce block (rest ++ more)
  framed_append idx nonce block rest more = simp append_assoc

  -- A frame at the end.
  pub Framed-snoc :
      {a b : ℕ} {text plain : Bytes} (nonce block : Bytes)
      → length nonce ≡ stream_nonce_size
      → length block ≤ stream_block_size
      → Framed a b text plain
      → Framed a ((b + 1) % 2 ^ 64) (text ++ framed b nonce block []) (plain ++ block)
  Framed-snoc {a} {b} nonce block hn hb (no_frames e) = rw (← e) (
      subst (λ p. Framed a ((a + 1) % 2 ^ 64) (framed a nonce block []) p) (append-nil block)
        (frame a ((a + 1) % 2 ^ 64) nonce block hn hb (no_frames refl)))
  Framed-snoc nonce block hn hb (frame a b nonce' block' {text} {plain} hn' hb' fs) =
      rw (framed_append, append_assoc)
        (frame a ((b + 1) % 2 ^ 64) nonce' block' hn' hb' (Framed-snoc nonce block hn hb fs))

pub uint32-put_uint32 : (n : ℕ) → n < 2 ^ 32 → uint32 (put_uint32 n) ≡ n
unfolding uint32 put_uint32
uint32-put_uint32 n h = omega arith
