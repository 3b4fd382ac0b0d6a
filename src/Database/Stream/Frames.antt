-- ===== src/Database/Stream/Frames.antt =====
-- The output of internal/database/encrypt_stream.go as a row of frames of the plaintext, with a random
-- source and a writer that may fail.
use cloudnan_agent.Base.{
  ℕ, zero, suc, ◌+◌, ◌-◌, ◌%◌, ◌^◌, ◌≤◌, ◌<◌, Bool, true, false, List, [], ◌∷◌, ◌++◌, Option, none,
  some, ◌==◌, ◌≡◌, refl, sym, ap, ◌∙◌, subst, inl, inr, arith, take, drop, length, flatten, Bytes,
  length-append, take-append-drop, length-drop, append_assoc, append-nil, Bool-cases,
}
use cloudnan_agent.Database.Stream.{Aead, stream_block_size, stream_nonce_size, put_uint32}
use cloudnan_agent.Database.Stream.Encrypt.{
  StreamError, write_nonce, write_length, write_ciphertext, Encrypter, new_encrypter, Step,
  then_step, write_out, taken, drawn, write_frame, flush_block, fill, write_round, write_loop,
  write, close, write_all, encrypt,
}
use cloudnan_agent.Database.Stream.Framed.{ciphertext, Framed, no_frames, Framed-snoc}

-- The step ends without an error in a state as described, or something failed.
abbrev pub EndsIn : Type 0 → (Encrypter → Type 0) → Step → Type 0
EndsIn Fault P (s, none) = P s
EndsIn Fault P (s, some e) = Fault

pub then_step-EndsIn :
    (Fault : Type 0) (P Q : Encrypter → Type 0) (r : Step) (f : Encrypter → Step)
    → EndsIn Fault P r
    → ((s : Encrypter) → P s → EndsIn Fault Q (f s))
    → EndsIn Fault Q (then_step r f)
then_step-EndsIn Fault P Q (s, none) f h k = k s h
then_step-EndsIn Fault P Q (s, some e) f h k = h

pub EndsIn-map :
    (Fault : Type 0) (P Q : Encrypter → Type 0) (r : Step)
    → ((s : Encrypter) → P s → Q s)
    → EndsIn Fault P r
    → EndsIn Fault Q r
EndsIn-map Fault P Q (s, none) k h = k s h
EndsIn-map Fault P Q (s, some e) k h = h

take_rest {ℓ} : {A : Type ℓ} (k : ℕ) (xs : List A) → length (take k xs) ≤ k
take_rest zero xs = omega arith
take_rest (suc k) [] = omega arith
take_rest (suc k) (x ∷ xs) = omega (arith, take_rest k xs)

-- The output is a row of frames from index 0 on.
abbrev pub IsFrames : Aead → Bytes → Encrypter → Type 0
IsFrames aead plain s = Framed aead 0 s.block_idx s.out plain

module _ (aead : Aead) (nonces : ℕ → Option Bytes) (fails : Bytes → Bytes → Option Bytes)
    (Fault : Type 0) (broken_source : (k : ℕ) → nonces k ≡ none → Fault)
    (broken_writer : (out text part : Bytes) → fails out text ≡ some part → Fault)
    (nonce_length : (k : ℕ) (nonce : Bytes)
      → nonces k ≡ some nonce
      → length nonce ≡ stream_nonce_size) where
  abbrev Wrote : Encrypter → Bytes → Encrypter → Type 0
  Wrote s text t = t ≡ record s { out = s.out ++ text }

  taken-EndsIn :
      (e : StreamError) (text : Bytes) (s : Encrypter) (o : Option Bytes)
      → fails s.out text ≡ o
      → EndsIn Fault (Wrote s text) (taken e text s o)
  taken-EndsIn e text s none h = refl
  taken-EndsIn e text s (some part) h = broken_writer s.out text part h

  write_out-EndsIn :
      (e : StreamError) (text : Bytes) (s : Encrypter)
      → EndsIn Fault (Wrote s text) (write_out aead nonces fails e text s)
  write_out-EndsIn e text s = taken-EndsIn e text s (fails s.out text) refl

  -- Frames up to the block index, of the plaintext, and an empty block.
  pub record Flushed (was_closed : Bool) (plain : Bytes) (t : Encrypter) : Type 0 where
    pub frames : Framed aead 0 t.block_idx t.out plain
    pub emptied : t.block_buf ≡ []
    pub kept : t.closed ≡ was_closed

  three_writes : (out a b c : Bytes) → out ++ (a ++ (b ++ (c ++ []))) ≡ ((out ++ a) ++ b) ++ c
  three_writes out a b c = simp (append_assoc, append-nil)

  -- A text at the end of the output.
  written :
      (e : StreamError) (text : Bytes) (s : Encrypter) (P : Encrypter → Type 0)
      (f : Encrypter → Step)
      → EndsIn Fault P (f (record s { out = s.out ++ text }))
      → EndsIn Fault P (then_step (write_out aead nonces fails e text s) f)
  written e text s P f h =
      then_step-EndsIn Fault (Wrote s text) P (write_out aead nonces fails e text s) f
        (write_out-EndsIn e text s) λ t q. subst (λ t. EndsIn Fault P (f t)) (sym q) h

  write_frame-EndsIn :
      (nonce done : Bytes) (s : Encrypter)
      → length nonce ≡ stream_nonce_size
      → length s.block_buf ≤ stream_block_size
      → Framed aead 0 s.block_idx s.out done
      → EndsIn Fault
          (Flushed s.closed (done ++ s.block_buf))
          (write_frame aead nonces fails nonce s)
  unfolding write_frame
  write_frame-EndsIn nonce done s hn hb fs =
      let P = Flushed s.closed (done ++ s.block_buf) in
      let flushed : Flushed s.closed (done ++ s.block_buf) (record s {
        out =
            ((s.out ++ nonce)
              ++ put_uint32 (length (ciphertext aead s.block_idx nonce s.block_buf) % 2 ^ 32))
            ++ ciphertext aead s.block_idx nonce s.block_buf;
        block_buf = [];
        block_idx = (s.block_idx + 1) % 2 ^ 64;
      }) =
        record {
          frames =
              subst (λ o. Framed aead 0 ((s.block_idx + 1) % 2 ^ 64) o (done ++ s.block_buf))
                (three_writes s.out nonce _ _) (Framed-snoc aead nonce s.block_buf hn hb fs);
          emptied = refl;
          kept = refl;
        } in
      written write_nonce _ s P _
        (written write_length _ _ P _ (written write_ciphertext _ _ P _ flushed))

  drawn-EndsIn :
      (done : Bytes) (s : Encrypter) (k : ℕ) (o : Option Bytes)
      → nonces k ≡ o
      → length s.block_buf ≤ stream_block_size
      → Framed aead 0 s.block_idx s.out done
      → EndsIn Fault (Flushed s.closed (done ++ s.block_buf)) (drawn aead nonces fails o s)
  drawn-EndsIn done s k none h hb fs = broken_source k h
  drawn-EndsIn done s k (some nonce) h hb fs =
      write_frame-EndsIn nonce done s (nonce_length k nonce h) hb fs

  flush_block-EndsIn :
      (done : Bytes) (s : Encrypter)
      → length s.block_buf ≤ stream_block_size
      → Framed aead 0 s.block_idx s.out done
      → EndsIn Fault (Flushed s.closed (done ++ s.block_buf)) (flush_block aead nonces fails s)
  unfolding flush_block
  flush_block-EndsIn done s hb fs =
      drawn-EndsIn done (record s { draws = s.draws + 1 }) s.draws (nonces s.draws) refl hb fs

  -- Open, with frames of all of the plaintext but what is in the block.
  pub record Ready (plain : Bytes) (s : Encrypter) : Type 0 where
    pub done : Bytes
    pub frames : Framed aead 0 s.block_idx s.out done
    pub split : done ++ s.block_buf ≡ plain
    pub room : length s.block_buf < stream_block_size
    pub is_open : s.closed ≡ false

  Ready-Flushed :
      (was_closed : Bool) (plain : Bytes) (t : Encrypter)
      → was_closed ≡ false
      → Flushed was_closed plain t
      → Ready plain t
  Ready-Flushed was_closed plain t h f = record {
    done = plain;
    frames = f.frames;
    split = rw f.emptied (append-nil plain);
    room = rw f.emptied (omega arith);
    is_open = f.kept ∙ h;
  }

  fill_room :
      (p : Bytes) (s : Encrypter)
      → length s.block_buf < stream_block_size
      → length (fill p s).block_buf ≤ stream_block_size
  fill_room p s h = omega (
    arith,
    take_rest (stream_block_size - length s.block_buf) p,
    length-append s.block_buf (take (stream_block_size - length s.block_buf) p),
  )

  below_full :
      (n : ℕ) → n ≤ stream_block_size → (n == stream_block_size) ≡ false → n < stream_block_size
  below_full n h k = ground arith

  write_round-EndsIn :
      (plain p : Bytes) (s : Encrypter)
      → Ready plain s
      → EndsIn Fault
          (Ready (plain ++ take (stream_block_size - length s.block_buf) p))
          (write_round aead nonces fails p s)
  unfolding write_round
  write_round-EndsIn plain p s r =
      let k = stream_block_size - length s.block_buf in
      let both : r.done ++ (s.block_buf ++ take k p) ≡ plain ++ take k p =
        sym (append_assoc r.done s.block_buf (take k p)) ∙ ap (λ x. x ++ take k p) r.split in
      elim (Bool-cases (length (s.block_buf ++ take k p) == stream_block_size)) [
        | inl full ↦ rw full (
            EndsIn-map Fault (Flushed s.closed (r.done ++ (s.block_buf ++ take k p)))
              (Ready (plain ++ take k p)) (flush_block aead nonces fails (fill p s))
              (λ t f.
                Ready-Flushed s.closed (plain ++ take k p) t r.is_open
                  (subst (λ x. Flushed s.closed x t) both f))
              (flush_block-EndsIn r.done (fill p s) (fill_room p s r.room) r.frames))
        | inr open_block ↦ rw open_block record {
          done = r.done;
          frames = r.frames;
          split = both;
          room = below_full _ (fill_room p s r.room) open_block;
          is_open = r.is_open;
        }
      ]

  write_loop-EndsIn :
      (fuel : ℕ) (plain p : Bytes) (s : Encrypter)
      → length p ≤ fuel
      → Ready plain s
      → EndsIn Fault (Ready (plain ++ p)) (write_loop aead nonces fails fuel p s)
  unfolding write_loop
  write_loop-EndsIn fuel plain [] s h r = rw append-nil r
  write_loop-EndsIn zero plain (c ∷ p) s h r = absurd (omega arith)
  write_loop-EndsIn (suc fuel) plain (c ∷ p) s h r =
      let k = stream_block_size - length s.block_buf in
      then_step-EndsIn Fault (Ready (plain ++ take k (c ∷ p))) (Ready (plain ++ c ∷ p))
        (write_round aead nonces fails (c ∷ p) s)
        (write_loop aead nonces fails fuel (drop k (c ∷ p))) (write_round-EndsIn plain (c ∷ p) s r)
        λ t q.
          subst (λ x. EndsIn Fault (Ready x) (write_loop aead nonces fails fuel (drop k (c ∷ p)) t))
            (append_assoc plain (take k (c ∷ p)) (drop k (c ∷ p))
              ∙ ap (λ x. plain ++ x) (take-append-drop k (c ∷ p)))
            (write_loop-EndsIn fuel (plain ++ take k (c ∷ p)) (drop k (c ∷ p)) t
              (omega (arith, length-drop k (c ∷ p), h, r.room)) q)

  write-EndsIn :
      (plain p : Bytes) (s : Encrypter)
      → Ready plain s
      → EndsIn Fault (Ready (plain ++ p)) (write aead nonces fails p s)
  unfolding write
  write-EndsIn plain p s r =
      simp r.is_open (write_loop-EndsIn (suc (length p)) plain p s (omega arith) r)

  pub write_all-EndsIn :
      (plain : Bytes) (ps : List Bytes) (s : Encrypter)
      → Ready plain s
      → EndsIn Fault (Ready (plain ++ flatten ps)) (write_all aead nonces fails ps s)
  unfolding write_all
  write_all-EndsIn plain [] s r = rw append-nil r
  write_all-EndsIn plain (p ∷ ps) s r =
      then_step-EndsIn Fault (Ready (plain ++ p)) (Ready (plain ++ (p ++ flatten ps)))
        (write aead nonces fails p s) (write_all aead nonces fails ps) (write-EndsIn plain p s r)
        λ t q.
          subst (λ x. EndsIn Fault (Ready x) (write_all aead nonces fails ps t))
            (append_assoc plain p (flatten ps)) (write_all-EndsIn (plain ++ p) ps t q)

  empty_block : (b : Bytes) → (length b == 0) ≡ true → b ≡ []
  empty_block [] h = refl
  empty_block (c ∷ b) h = absurd (ground arith)

  close-EndsIn :
      (plain : Bytes) (s : Encrypter)
      → Ready plain s
      → EndsIn Fault (IsFrames aead plain) (close aead nonces fails s)
  unfolding close
  close-EndsIn plain s r = elim (Bool-cases (length s.block_buf == 0)) [
    | inl e ↦
        simp (r.is_open, e)
          (subst (λ x. Framed aead 0 s.block_idx s.out x)
            (sym (append-nil r.done)
              ∙ ap (λ b. r.done ++ b) (sym (empty_block s.block_buf e))
              ∙ r.split)
            r.frames)
    | inr e ↦
        simp (r.is_open, e)
          (EndsIn-map Fault (Flushed true (r.done ++ s.block_buf)) (IsFrames aead plain)
            (flush_block aead nonces fails (record s { closed = true }))
            (λ t f. subst (λ x. IsFrames aead x t) r.split f.frames)
            (flush_block-EndsIn r.done (record s { closed = true }) (omega (arith, r.room))
              r.frames))
  ]

  -- Writing any texts and closing ends with a row of frames of the texts, each of at most a
  -- block, numbered from 0 on; an error comes from a failing random source or a failing writer
  -- alone, and nonces have 12 bytes.
  pub encrypt-EndsIn :
      (chunks : List Bytes)
      → EndsIn Fault (IsFrames aead (flatten chunks)) (encrypt aead nonces fails chunks)
  unfolding encrypt
  encrypt-EndsIn chunks =
      then_step-EndsIn Fault (Ready (flatten chunks)) (IsFrames aead (flatten chunks))
        (write_all aead nonces fails chunks new_encrypter) (close aead nonces fails)
        (write_all-EndsIn [] chunks new_encrypter record {
          done = [];
          frames = no_frames refl;
          split = refl;
          room = omega arith;
          is_open = refl;
        })
        (close-EndsIn (flatten chunks))
