-- ===== src/Database/Stream/Decrypt.antt =====
-- `StreamDecrypter` of internal/database/decrypt_stream.go. The input is the bytes that are still to
-- come and how they end.
use cloudnan_agent.Base.{
  ℕ, zero, suc, ◌+◌, ◌%◌, ◌^◌, Bool, true, false, not, [], ◌++◌, Option, none, some, ◌==◌,
  if◌then◌else◌, leb, ltb, take, drop, length, Bytes, Outcome, ok, err, ◌>>=◌,
}
use cloudnan_agent.Database.Stream.{Aead, stream_nonce_size, put_uint64, uint32}

pub data ReadError : Type 0 where
  end_of_file unexpected_end other_error : ReadError

pub record Input : Type 0 where
  pub bytes : Bytes
  pub breaks_off : Bool  -- the reader fails behind these bytes instead of ending

-- `io.ReadFull` of `n` bytes.
unfoldable pub read_full : ℕ → Input → Outcome ReadError (Bytes × Input)
read_full n i =
    if leb n (length i.bytes)
    then ok (take n i.bytes, record i { bytes = drop n i.bytes })
    else if i.breaks_off
    then err other_error
    else if length i.bytes == 0
    then err end_of_file
    else err unexpected_end

pub data FrameError : Type 0 where
  stream_end short_nonce read_nonce below_overhead exceeds_maximum authenticate : FrameError
  read_length read_ciphertext : ReadError → FrameError

-- `errors.Is(err, io.EOF)`: the errors that wrap the end of the file.
abbrev pub wraps_eof : FrameError → Bool
wraps_eof stream_end = true
wraps_eof (read_length end_of_file) = true
wraps_eof (read_ciphertext end_of_file) = true
wraps_eof _ = false

abbrev pub stream_max_frame_size : ℕ
stream_max_frame_size = 2 ^ 20 + 64

abbrev pub nonce_error : ReadError → FrameError
nonce_error end_of_file = stream_end
nonce_error unexpected_end = short_nonce
nonce_error other_error = read_nonce

-- An error of reading, as an error of the frame.
abbrev pub wrap {ℓ} :
    {A : Type ℓ} → (ReadError → FrameError) → Outcome ReadError A → Outcome FrameError A
wrap f (ok a) = ok a
wrap f (err e) = err (f e)

module _ (aead : Aead) where
  abbrev pub check_length : ℕ → Outcome FrameError (Unit {0})
  check_length n =
      if ltb n aead.overhead
      then err below_overhead
      else if ltb stream_max_frame_size n
      then err exceeds_maximum
      else ok tt

  abbrev pub opened : Option Bytes → Input → Outcome FrameError (Bytes × Input)
  opened none i = err authenticate
  opened (some plain) i = ok (plain, i)

  -- `nextFrame` at the block of that index: the plaintext, and the input behind the frame.
  unfoldable pub next_frame : ℕ → Input → Outcome FrameError (Bytes × Input)
  unfolding read_full put_uint64 uint32
  next_frame idx i = do
    (nonce, i1) ← wrap nonce_error (read_full stream_nonce_size i)
    (len_buf, i2) ← wrap read_length (read_full 4 i1)
    _ ← check_length (uint32 len_buf)
    (ct, i3) ← wrap read_ciphertext (read_full (uint32 len_buf) i2)
    opened (aead.unseal nonce ct (put_uint64 idx)) i3

  -- What a frame that was rejected leaves of the input: a read that falls short takes all there is.
  unfoldable pub left_input : Input → Input
  unfolding uint32
  left_input i =
      let behind_nonce = drop stream_nonce_size i.bytes in
      let behind_length = drop 4 behind_nonce in
      let n = uint32 (take 4 behind_nonce) in
      elim (check_length n) [
        | err e ↦ record i { bytes = behind_length }
        | ok _ ↦ record i { bytes = drop n behind_length }
      ]

pub record Decrypter : Type 0 where
  pub input : Input
  pub block_idx : ℕ  -- uint64
  pub unread : Bytes  -- `plainBuf` from `plainPos` on
  pub eof : Bool

-- What `Read` returns besides its bytes: nothing, `io.EOF` or another error.
pub data ReadEnd : Type 0 where
  more : ReadEnd
  finished : ReadEnd
  failed : FrameError → ReadEnd

abbrev pub serve : ℕ → Decrypter → Decrypter × Bytes × ReadEnd
serve n d = (record d { unread = drop n d.unread }, take n d.unread, more)

abbrev pub frame_read :
    ℕ → Decrypter → Input → Outcome FrameError (Bytes × Input) → Decrypter × Bytes × ReadEnd
frame_read n d left (ok (plain, rest)) =
    serve n (record d { input = rest; block_idx = (d.block_idx + 1) % 2 ^ 64; unread = plain })
frame_read n d left (err e) =
    if wraps_eof e
    then (record d { input = left; eof = true }, [], finished)
    else (record d { input = left }, [], failed e)

module _ (aead : Aead) where
  -- `Read` into a buffer of `n` bytes.
  unfoldable pub read : ℕ → Decrypter → Decrypter × Bytes × ReadEnd
  unfolding next_frame left_input
  read n d =
      if n == 0
      then (d, [], more)
      else if not (length d.unread == 0)
      then serve n d
      else if d.eof
      then (d, [], finished)
      else frame_read n d (left_input aead d.input) (next_frame aead d.block_idx d.input)

  -- A reader that calls `Read` until it ends, on fuel; `none` means that the fuel ran out.
  abbrev pub prepend : Bytes → Option (Outcome FrameError Bytes) → Option (Outcome FrameError Bytes)
  prepend text (some (ok rest)) = some (ok (text ++ rest))
  prepend text r = r

  abbrev pub go_on :
      Bytes → ReadEnd → Option (Outcome FrameError Bytes) → Option (Outcome FrameError Bytes)
  go_on text more rest = prepend text rest
  go_on text finished rest = some (ok text)
  go_on text (failed e) rest = some (err e)

  unfoldable pub drain : ℕ → ℕ → Decrypter → Option (Outcome FrameError Bytes)
  unfolding read
  drain zero n d = none
  drain (suc fuel) n d =
      let (d', text, end) = read n d in let rest = drain fuel n d' in go_on text end rest

abbrev pub new_decrypter : Bytes → Decrypter
new_decrypter text = record {
  input = record { bytes = text; breaks_off = false };
  block_idx = 0;
  unread = [];
  eof = false;
}
