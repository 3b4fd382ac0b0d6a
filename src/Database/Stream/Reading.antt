-- ===== src/Database/Stream/Reading.antt =====
-- `nextFrame` of internal/database/decrypt_stream.go on a frame that the encrypter writes.
use cloudnan_agent.Base.{
  ℕ, ◌+◌, ◌%◌, ◌^◌, ◌≤◌, true, false, ◌++◌, leb, ◌≡◌, refl, sym, ap, ◌∙◌, arith, take, drop, length,
  Bytes, length-append, take_append_length, drop_append_length, ok,
}
use cloudnan_agent.Database.Stream.{
  Aead, stream_block_size, stream_nonce_size, put_uint32, put_uint64, uint32,
}
use cloudnan_agent.Database.Stream.Decrypt.{
  Input, read_full, stream_max_frame_size, check_length, opened, next_frame,
}
use cloudnan_agent.Database.Stream.Framed.{ciphertext, framed, uint32-put_uint32}

abbrev pub whole : Bytes → Input
whole text = record { bytes = text; breaks_off = false }

pub take_exactly : (n : ℕ) (xs ys : Bytes) → length xs ≡ n → take n (xs ++ ys) ≡ xs
take_exactly n xs ys e = ap (λ k. take k (xs ++ ys)) (sym e) ∙ take_append_length xs ys

pub drop_exactly : (n : ℕ) (xs ys : Bytes) → length xs ≡ n → drop n (xs ++ ys) ≡ ys
drop_exactly n xs ys e = ap (λ k. drop k (xs ++ ys)) (sym e) ∙ drop_append_length xs ys

there : (n : ℕ) (xs ys : Bytes) → length xs ≡ n → leb n (length (xs ++ ys)) ≡ true
there n xs ys e = ground (arith, length-append xs ys)

pub read_full-append :
    (n : ℕ) (xs ys : Bytes) → length xs ≡ n → read_full n (whole (xs ++ ys)) ≡ ok (xs, whole ys)
unfolding read_full
read_full-append n xs ys e =
    rw (there n xs ys e) (rw (take_exactly n xs ys e, drop_exactly n xs ys e) refl)

pub check_length_ok :
    (aead : Aead) (n : ℕ) → 16 ≤ n → n ≤ stream_max_frame_size → check_length aead n ≡ ok tt
check_length_ok aead n h k = rw aead.overhead_eq (ground arith)

module _ (aead : Aead) where
  pub length-ciphertext :
      (idx : ℕ) (nonce block : Bytes)
      → length block ≤ stream_block_size
      → length (ciphertext aead idx nonce block) ≡ length block + 16
  length-ciphertext idx nonce block h =
      aead.length_seal nonce block (put_uint64 idx) ∙ ap (λ k. length block + k) aead.overhead_eq

  -- The length that a frame holds is read back.
  length_read_back : (n : ℕ) → n ≤ stream_max_frame_size → uint32 (put_uint32 (n % 2 ^ 32)) ≡ n
  length_read_back n h = uint32-put_uint32 (n % 2 ^ 32) (omega arith) ∙ omega arith

  pub four_bytes : (n : ℕ) → length (put_uint32 n) ≡ 4
  unfolding put_uint32
  four_bytes n = refl

  fits :
      (idx : ℕ) (nonce block : Bytes)
      → length block ≤ stream_block_size
      → (16 ≤ length (ciphertext aead idx nonce block))
        × (length (ciphertext aead idx nonce block) ≤ stream_max_frame_size)
  fits idx nonce block h = omega (arith, length-ciphertext idx nonce block h)

  -- A frame in its parts: nonce, length, ciphertext.
  pub next_frame-parts :
      (idx : ℕ) (nonce len ct rest : Bytes)
      → length nonce ≡ stream_nonce_size
      → length len ≡ 4
      → uint32 len ≡ length ct
      → check_length aead (length ct) ≡ ok tt
      → next_frame aead idx (whole (nonce ++ (len ++ (ct ++ rest))))
        ≡ opened aead (aead.unseal nonce ct (put_uint64 idx)) (whole rest)
  unfolding next_frame
  next_frame-parts idx nonce len ct rest hn hl hu hc =
      rw (read_full-append stream_nonce_size nonce (len ++ (ct ++ rest)) hn) (
        rw (read_full-append 4 len (ct ++ rest) hl)
          (rw hu (rw (hc, read_full-append (length ct) ct rest refl) refl)))

  -- A frame sealed as block `i` is read and opened as block `j`.
  pub next_frame-sealed :
      (i j : ℕ) (nonce block rest : Bytes)
      → length nonce ≡ stream_nonce_size
      → length block ≤ stream_block_size
      → next_frame aead j (whole (framed aead i nonce block rest))
        ≡ opened aead
            (aead.unseal nonce (ciphertext aead i nonce block) (put_uint64 j))
            (whole rest)
  next_frame-sealed i j nonce block rest hn hb =
      let ct = ciphertext aead i nonce block in
      let (lo, hi) = fits i nonce block hb in
      next_frame-parts j nonce (put_uint32 (length ct % 2 ^ 32)) ct rest hn
        (four_bytes (length ct % 2 ^ 32)) (length_read_back (length ct) hi)
        (check_length_ok aead (length ct) lo hi)

  pub next_frame-framed :
      (idx : ℕ) (nonce block rest : Bytes)
      → length nonce ≡ stream_nonce_size
      → length block ≤ stream_block_size
      → next_frame aead idx (whole (framed aead idx nonce block rest)) ≡ ok (block, whole rest)
  next_frame-framed idx nonce block rest hn hb =
      next_frame-sealed idx idx nonce block rest hn hb
      ∙ ap (λ o. opened aead o (whole rest)) (aead.unseal_seal nonce block (put_uint64 idx))
