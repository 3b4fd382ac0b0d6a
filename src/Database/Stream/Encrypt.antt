-- ===== src/Database/Stream/Encrypt.antt =====
-- `StreamEncrypter` of internal/database/encrypt_stream.go. The random source gives a nonce for each
-- frame, or fails; the writer may fail at a text, of
-- which it then took a part.
use cloudnan_agent.Base.{
  ℕ, zero, suc, ◌+◌, ◌-◌, ◌%◌, ◌^◌, Bool, true, false, List, [], ◌∷◌, ◌++◌, Option, none, some,
  ◌==◌, if◌then◌else◌, take, drop, length, Bytes,
}
use cloudnan_agent.Database.Stream.{Aead, stream_block_size, put_uint32, put_uint64}

pub data StreamError : Type 0 where
  write_on_closed read_nonce write_nonce write_length write_ciphertext : StreamError

pub record Encrypter : Type 0 where
  pub out : Bytes
  pub block_buf : Bytes
  pub block_idx : ℕ  -- uint64
  pub closed : Bool
  pub draws : ℕ  -- the nonces drawn so far

abbrev pub new_encrypter : Encrypter
new_encrypter = record { out = []; block_buf = []; block_idx = 0; closed = false; draws = 0 }

-- The state and the error, if there is one.
abbrev pub Step : Type 0
Step = Encrypter × Option StreamError

abbrev pub then_step : Step → (Encrypter → Step) → Step
then_step (s, none) f = f s
then_step (s, some e) f = (s, some e)

-- What a write leaves: the writer took the text, or a part of it and failed.
abbrev pub taken : StreamError → Bytes → Encrypter → Option Bytes → Step
taken e text s none = (record s { out = s.out ++ text }, none)
taken e text s (some part) = (record s { out = s.out ++ part }, some e)

-- Fills the block with what there is room for.
abbrev pub fill : Bytes → Encrypter → Encrypter
fill p s = record s { block_buf = s.block_buf ++ take (stream_block_size - length s.block_buf) p }

module _ (aead : Aead) (nonces : ℕ → Option Bytes) (fails : Bytes → Bytes → Option Bytes) where
  -- A write of the underlying writer.
  abbrev pub write_out : StreamError → Bytes → Encrypter → Step
  write_out e text s = taken e text s (fails s.out text)

  abbrev pub sealed : Bytes → Encrypter → Bytes
  sealed nonce s = aead.seal nonce s.block_buf (put_uint64 s.block_idx)

  unfoldable pub write_frame : Bytes → Encrypter → Step
  unfolding put_uint32 put_uint64
  write_frame nonce s =
      let ct = sealed nonce s in
      then_step (write_out write_nonce nonce s) λ s1.
        then_step (write_out write_length (put_uint32 (length ct % 2 ^ 32)) s1) λ s2.
          then_step (write_out write_ciphertext ct s2)
            λ s3. (record s3 { block_buf = []; block_idx = (s.block_idx + 1) % 2 ^ 64 }, none)

  abbrev pub drawn : Option Bytes → Encrypter → Step
  drawn none s = (s, some read_nonce)
  drawn (some nonce) s = write_frame nonce s

  unfoldable pub flush_block : Encrypter → Step
  unfolding write_frame
  flush_block s = drawn (nonces s.draws) (record s { draws = s.draws + 1 })

  -- One round of the loop of `Write`.
  unfoldable pub write_round : Bytes → Encrypter → Step
  unfolding flush_block
  write_round p s =
      if length (fill p s).block_buf == stream_block_size
      then flush_block (fill p s)
      else (fill p s, none)

  -- The loop on fuel: the state, the bytes that are left, and the error.
  unfoldable pub write_loop : ℕ → Bytes → Encrypter → Step
  unfolding write_round
  write_loop fuel [] s = (s, none)
  write_loop zero (c ∷ p) s = (s, none)
  write_loop (suc fuel) (c ∷ p) s =
      then_step (write_round (c ∷ p) s)
        (write_loop fuel (drop (stream_block_size - length s.block_buf) (c ∷ p)))

  -- Each round takes a byte at least, but for a first one that only writes out a full block, so the
  -- length and one more is fuel enough.
  unfoldable pub write : Bytes → Encrypter → Step
  unfolding write_loop
  write p s = if s.closed then (s, some write_on_closed) else write_loop (suc (length p)) p s

  unfoldable pub close : Encrypter → Step
  unfolding flush_block
  close s =
      if s.closed
      then (s, none)
      else if length s.block_buf == 0
      then (record s { closed = true }, none)
      else flush_block (record s { closed = true })

  -- The texts of several calls of `Write`, and the end.
  unfoldable pub write_all : List Bytes → Encrypter → Step
  unfolding write
  write_all [] s = (s, none)
  write_all (p ∷ ps) s = then_step (write p s) (write_all ps)

  unfoldable pub encrypt : List Bytes → Step
  unfolding write_all close
  encrypt chunks = then_step (write_all chunks new_encrypter) close
