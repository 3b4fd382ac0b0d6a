-- ===== src/Database/Stream/RoundTrip.antt =====
-- `Read` of internal/database/decrypt_stream.go on a row of frames, whole or broken off behind a nonce,
-- and on what the encrypter wrote.
use cloudnan_agent.Base.{
  ℕ, zero, suc, ◌+◌, ◌%◌, ◌^◌, ◌≤◌, ◌<◌, true, false, List, [], ◌∷◌, ◌++◌, none, some, ◌==◌, ◌≡◌,
  refl, sym, ap, ◌∙◌, arith, take, drop, length, flatten, Bytes, length-append, take-append-drop,
  length-drop, append_assoc, append-nil, ok, err,
}
use cloudnan_agent.Database.Stream.{Aead, stream_block_size, stream_nonce_size, put_uint32}
use cloudnan_agent.Database.Stream.Decrypt.{
  FrameError, wraps_eof, read_length, next_frame, Decrypter, ReadEnd, more, finished, stream_end,
  end_of_file, serve, left_input, frame_read, read, prepend, go_on, drain, new_decrypter,
}
use cloudnan_agent.Database.Stream.Encrypt.{encrypt}
use cloudnan_agent.Database.Stream.Framed.{
  ciphertext, framed, Framed, no_frames, frame, framed_append,
}
use cloudnan_agent.Database.Stream.Frames.{EndsIn, IsFrames, encrypt-EndsIn, EndsIn-map}
use cloudnan_agent.Database.Stream.Reading.{
  whole, read_full-append, length-ciphertext, four_bytes, next_frame-framed,
}

module _ (aead : Aead) where
  abbrev pub state : Bytes → ℕ → Bytes → Decrypter
  state text idx unread = record {
    input = whole text;
    block_idx = idx;
    unread = unread;
    eof = false;
  }

  positive : (n : ℕ) → 1 ≤ n → (n == 0) ≡ false
  positive n h = ground arith

  read-unread :
      (n : ℕ) (text : Bytes) (idx : ℕ) (c : ℕ) (u : Bytes)
      → 1 ≤ n
      → read aead n (state text idx (c ∷ u)) ≡ serve n (state text idx (c ∷ u))
  unfolding read
  read-unread n text idx c u h =
      rw (positive n h) (rw (positive (suc (length u)) (omega arith)) refl)

  read-frame :
      (n : ℕ) (text : Bytes) (idx : ℕ)
      → 1 ≤ n
      → read aead n (state text idx [])
        ≡ frame_read n
            (state text idx [])
            (left_input aead (whole text))
            (next_frame aead idx (whole text))
  unfolding read
  read-frame n text idx h = rw (positive n h) refl

  drain_next :
      (fuel n : ℕ) (d d' : Decrypter) (text : Bytes) (end : ReadEnd)
      → read aead n d ≡ (d', text, end)
      → drain aead (suc fuel) n d ≡ go_on aead text end (drain aead fuel n d')
  unfolding drain
  drain_next fuel n d d' text end e = rw e refl

  -- A read that gives a part of a block.
  drain_part :
      (fuel n : ℕ) (d d' : Decrypter) (block plain : Bytes)
      → read aead n d ≡ (d', take n block, more)
      → drain aead fuel n d' ≡ some (ok (drop n block ++ plain))
      → drain aead (suc fuel) n d ≡ some (ok (block ++ plain))
  drain_part fuel n d d' block plain e rest =
      drain_next fuel n d d' (take n block) more e
      ∙ ap (prepend aead (take n block)) rest
      ∙ ap (λ x. some (ok x))
          (sym (append_assoc (take n block) (drop n block) plain)
            ∙ ap (λ x. x ++ plain) (take-append-drop n block))

  length-framed :
      (a : ℕ) (nonce block text : Bytes)
      → length block ≤ stream_block_size
      → length block + length text < length (framed aead a nonce block text)
  length-framed a nonce block text h =
      let ct = ciphertext aead a nonce block in
      let len : Bytes = put_uint32 (length ct % 2 ^ 32) in
      omega (
        arith,
        length-append nonce (len ++ (ct ++ text)),
        length-append len (ct ++ text),
        length-append ct text,
        four_bytes aead (length ct % 2 ^ 32),
        length-ciphertext aead a nonce block h,
      )

  module _ (n : ℕ) (positive_n : 1 ≤ n) (b : ℕ) (tail : Bytes) (e : FrameError)
      (at_tail : next_frame aead b (whole tail) ≡ err e) (ends : wraps_eof e ≡ true) where
    read-tail :
        (a : ℕ)
        → a ≡ b
        → read aead n (state tail a []) ≡ (
          record (state tail a []) { input = left_input aead (whole tail); eof = true },
          [],
          finished,
        )
    read-tail a same =
        read-frame n tail a positive_n
        ∙ ap (frame_read n (state tail a []) (left_input aead (whole tail)))
            (ap (λ k. next_frame aead k (whole tail)) same ∙ at_tail)
        ∙ rw ends refl

    read-framed :
        (a : ℕ) (nonce block text : Bytes)
        → length nonce ≡ stream_nonce_size
        → length block ≤ stream_block_size
        → read aead n (state (framed aead a nonce block text ++ tail) a [])
          ≡ serve n (state (text ++ tail) ((a + 1) % 2 ^ 64) block)
    read-framed a nonce block text hn hb =
        read-frame n (framed aead a nonce block text ++ tail) a positive_n
        ∙ ap
            (λ x.
              frame_read n (state (framed aead a nonce block text ++ tail) a [])
                (left_input aead (whole (framed aead a nonce block text ++ tail)))
                (next_frame aead a (whole x)))
            (framed_append aead a nonce block text tail)
        ∙ ap
            (frame_read n (state (framed aead a nonce block text ++ tail) a [])
              (left_input aead (whole (framed aead a nonce block text ++ tail))))
            (next_frame-framed aead a nonce block (text ++ tail) hn hb)

    drain-Framed :
        (fuel a : ℕ) {text plain : Bytes} (unread : Bytes)
        → Framed aead a b text plain
        → length unread + length text < fuel
        → drain aead fuel n (state (text ++ tail) a unread) ≡ some (ok (unread ++ plain))
    drain-Framed zero a unread fs h = absurd (omega arith)
    drain-Framed (suc fuel) a {text} {plain} (c ∷ u) fs h =
        drain_part fuel n (state (text ++ tail) a (c ∷ u)) (state (text ++ tail) a (drop n (c ∷ u)))
          (c ∷ u) plain (read-unread n (text ++ tail) a c u positive_n)
          (drain-Framed fuel a (drop n (c ∷ u)) fs
            (omega (arith, length-drop n (c ∷ u), positive_n, h)))
    drain-Framed (suc fuel) a [] (no_frames same) h =
        drain_next fuel n (state tail a [])
          (record (state tail a []) { input = left_input aead (whole tail); eof = true }) []
          finished (read-tail a same)
    drain-Framed (suc fuel) a [] (frame _ _ nonce block {text} {plain} hn hb fs) h =
        drain_part fuel n (state (framed aead a nonce block text ++ tail) a [])
          (state (text ++ tail) ((a + 1) % 2 ^ 64) (drop n block)) block plain
          (read-framed a nonce block text hn hb)
          (drain-Framed fuel ((a + 1) % 2 ^ 64) (drop n block) fs
            (omega (arith, length-drop n block, length-framed a nonce block text hb, h)))

  at_end : (b : ℕ) → next_frame aead b (whole []) ≡ err stream_end
  unfolding next_frame
  at_end b = refl

  -- Reading a row of frames into buffers of any size gives the plaintext and ends.
  pub drain-Framed_whole :
      (n b : ℕ) (text plain : Bytes)
      → 1 ≤ n
      → Framed aead 0 b text plain
      → drain aead (suc (length text)) n (new_decrypter text) ≡ some (ok plain)
  drain-Framed_whole n b text plain h fs =
      ap (λ x. drain aead (suc (length text)) n (new_decrypter x)) (sym (append-nil text))
      ∙ drain-Framed n h b [] stream_end (at_end b) refl (suc (length text)) 0 [] fs (omega arith)

  cut_nonce :
      (b : ℕ) (nonce : Bytes)
      → length nonce ≡ stream_nonce_size
      → next_frame aead b (whole nonce) ≡ err (read_length end_of_file)
  unfolding next_frame
  cut_nonce b nonce h =
      ap (λ x. next_frame aead b (whole x)) (sym (append-nil nonce))
      ∙ rw (read_full-append stream_nonce_size nonce [] h) refl

  -- A row of frames that breaks off behind the nonce of a further frame is read as if it ended
  -- there: the plaintext of the whole frames and no error.
  pub drain-cut_nonce :
      (n b : ℕ) (text plain nonce : Bytes)
      → 1 ≤ n
      → Framed aead 0 b text plain
      → length nonce ≡ stream_nonce_size
      → drain aead (suc (length text)) n (new_decrypter (text ++ nonce)) ≡ some (ok plain)
  drain-cut_nonce n b text plain nonce h fs hn =
      drain-Framed n h b nonce (read_length end_of_file) (cut_nonce b nonce hn) refl
        (suc (length text)) 0 [] fs (omega arith)

-- With a random source that gives nonces of 12 bytes and a writer that takes every text,
-- writing any texts and closing succeeds, and reading what was written into buffers of any
-- size from 1 on gives the texts one behind the other and ends without error.
pub drain-encrypt :
    (aead : Aead) (nonces : ℕ → Bytes) (chunks : List Bytes) (n : ℕ)
    → ((k : ℕ) → length (nonces k) ≡ stream_nonce_size)
    → 1 ≤ n
    → EndsIn ⊥
        (λ s. drain aead (suc (length s.out)) n (new_decrypter s.out) ≡ some (ok (flatten chunks)))
        (encrypt aead (λ k. some (nonces k)) (λ out text. none) chunks)
drain-encrypt aead nonces chunks n hn h =
    EndsIn-map ⊥ (IsFrames aead (flatten chunks)) _
      (encrypt aead (λ k. some (nonces k)) (λ out text. none) chunks)
      (λ s fs. drain-Framed_whole aead n s.block_idx s.out (flatten chunks) h fs)
      (encrypt-EndsIn aead (λ k. some (nonces k)) (λ out text. none) ⊥ (λ k e. cc)
        (λ out text part e. cc) (λ k nonce e. cc (hn k)) chunks)
