-- ===== src/Database/Classify/Strip/Laws.antt =====
-- One round of the scanner at each kind of text.
use cloudnan_agent.Base.{
  ℕ, zero, suc, Bool, true, false, not, ◌||◌, [], ◌∷◌, ◌++◌, none, some, ◌≡◌, refl, arith, ◌==◌,
  length, drop, take, Bytes, ◌∙◌, ap, drop_append_length, take_append_length,
}
use cloudnan_agent.Database.Classify.Skip.{
  skip_single_quoted, skip_double_quoted, skip_backtick_quoted,
}
use cloudnan_agent.Database.Classify.Strip.{advance, scan_step, strip_from, newline, star_slash}
use cloudnan_agent.Database.Quote.{apostrophe, backtick, double_quote}
use cloudnan_agent.Text.Search.Laws.{index_byte-append, index-append}
use cloudnan_agent.Text.Search.{index_byte, index}

pub strip_from-skip :
    (n : ℕ) (saw : Bool) (out s : Bytes) → strip_from n saw out s ≡ strip_from 0 saw out (drop n s)
unfolding strip_from
strip_from-skip zero saw out s = refl
strip_from-skip (suc n) saw out [] = refl
strip_from-skip (suc n) saw out (c ∷ s) = strip_from-skip n saw out s

-- A round that advances.
pub strip_from-advance :
    (saw : Bool) (c : ℕ) (out s : Bytes) {written : Bytes} {saw' : Bool} {n : ℕ}
    → scan_step saw c s ≡ advance written saw' n
    → strip_from 0 saw out (c ∷ s) ≡ strip_from 0 saw' (out ++ written) (drop n s)
unfolding strip_from
strip_from-advance saw c out s {written} {saw'} {n} e =
    rw (e, strip_from) (strip_from-skip n saw' (out ++ written) s)

-- The bytes that start nothing: no quote, `$`, `;`, `-` or `/`.
unfoldable pub plain : ℕ → Bool
plain c = not (
    c == b'-'
    || c == b'/'
    || c == apostrophe
    || c == double_quote
    || c == backtick
    || c == b'$'
    || c == b';')

head_step-plain :
    (c : ℕ) (s : Bytes) → plain c ≡ true → scan_step false c s ≡ advance (c ∷ []) false 0
unfolding scan_step plain
head_step-plain c s h = ground arith

pub strip_from-plain :
    (c : ℕ) (out s : Bytes)
    → plain c ≡ true
    → strip_from 0 false out (c ∷ s) ≡ strip_from 0 false (out ++ c ∷ []) s
strip_from-plain c out s h = strip_from-advance false c out s (head_step-plain c s h)

-- A round that copies a text of `suc (length quoted)` bytes.
strip_from-copy :
    (c : ℕ) (quoted out s : Bytes)
    → scan_step false c (quoted ++ s)
      ≡ advance (take (suc (length quoted)) (c ∷ (quoted ++ s))) false (length quoted)
    → strip_from 0 false out (c ∷ (quoted ++ s)) ≡ strip_from 0 false (out ++ (c ∷ quoted)) s
strip_from-copy c quoted out s h =
    strip_from-advance false c out (quoted ++ s) h
    ∙ rw (take_append_length quoted s, drop_append_length quoted s)

pub strip_from-backtick :
    (quoted out s : Bytes)
    → skip_backtick_quoted (backtick ∷ (quoted ++ s)) ≡ suc (length quoted)
    → strip_from 0 false out (backtick ∷ (quoted ++ s))
      ≡ strip_from 0 false (out ++ (backtick ∷ quoted)) s
unfolding scan_step
strip_from-backtick quoted out s h = strip_from-copy backtick quoted out s (rw h)

pub strip_from-double_quote :
    (quoted out s : Bytes)
    → skip_double_quoted (double_quote ∷ (quoted ++ s)) ≡ suc (length quoted)
    → strip_from 0 false out (double_quote ∷ (quoted ++ s))
      ≡ strip_from 0 false (out ++ (double_quote ∷ quoted)) s
unfolding scan_step
strip_from-double_quote quoted out s h = strip_from-copy double_quote quoted out s (rw h)

pub strip_from-apostrophe :
    (quoted out s : Bytes)
    → skip_single_quoted (apostrophe ∷ (quoted ++ s)) ≡ suc (length quoted)
    → strip_from 0 false out (apostrophe ∷ (quoted ++ s))
      ≡ strip_from 0 false (out ++ (apostrophe ∷ quoted)) s
unfolding scan_step
strip_from-apostrophe quoted out s h = strip_from-copy apostrophe quoted out s (rw h)

-- What a comment leaves in the output: a blank in front of the terminator, nothing behind it.
abbrev pub comment_mark : Bool → Bytes
comment_mark true = []
comment_mark false = b' ' ∷ []

drop_behind : (text s : Bytes) (b : ℕ) → drop (suc (length text)) (text ++ (b ∷ s)) ≡ s
drop_behind [] s b = refl
drop_behind (c ∷ text) s b = drop_behind text s b

pub strip_from-line_comment :
    (saw : Bool) (text out s : Bytes)
    → index_byte text newline ≡ none
    → strip_from 0 saw out (b'-' ∷ b'-' ∷ (text ++ (newline ∷ s)))
      ≡ strip_from 0 saw (out ++ comment_mark saw) s
strip_from-line_comment saw text out s h =
    strip_from-advance saw b'-' out (b'-' ∷ (text ++ (newline ∷ s))) (step saw)
    ∙ ap (strip_from 0 saw (out ++ comment_mark saw)) (drop_behind text s newline)
  where
    found :
        index_byte (b'-' ∷ b'-' ∷ (text ++ (newline ∷ s))) newline ≡ some (suc (suc (length text)))
    found = unfold index_byte in (rw (index_byte-append text newline s h))

    step :
        (w : Bool)
        → scan_step w b'-' (b'-' ∷ (text ++ (newline ∷ s)))
          ≡ advance (comment_mark w) w (suc (suc (length text)))
    step true = unfold scan_step in (rw found)
    step false = unfold scan_step in (rw found)

pub strip_from-block_comment :
    (saw : Bool) (text out s : Bytes)
    → index text star_slash ≡ none
    → strip_from 0 saw out (b'/' ∷ b'*' ∷ (text ++ (b'*' ∷ b'/' ∷ s)))
      ≡ strip_from 0 saw (out ++ comment_mark saw) s
strip_from-block_comment saw text out s h =
    strip_from-advance saw b'/' out (b'*' ∷ (text ++ (b'*' ∷ b'/' ∷ s))) (step saw)
    ∙ ap (strip_from 0 saw (out ++ comment_mark saw)) (behind text)
  where
    found : index (text ++ (b'*' ∷ b'/' ∷ s)) star_slash ≡ some (length text)
    found = index-append text b'*' b'/' s (omega arith) h

    step :
        (w : Bool)
        → scan_step w b'/' (b'*' ∷ (text ++ (b'*' ∷ b'/' ∷ s)))
          ≡ advance (comment_mark w) w (suc (suc (suc (length text))))
    step true = unfold scan_step in (rw found)
    step false = unfold scan_step in (rw found)

    behind : (t : Bytes) → drop (suc (suc (length t))) (t ++ (b'*' ∷ b'/' ∷ s)) ≡ s
    behind [] = refl
    behind (c ∷ t) = behind t
