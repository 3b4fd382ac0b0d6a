-- ===== src/Executor/Quoting.antt =====
-- What a reader of shell words makes of the command line.
use cloudnan_agent.Base.{
  ℕ, Bool, ◌||◌, List, [], ◌∷◌, ◌++◌, Option, none, some, if◌then◌else◌, ◌==◌, map, Bytes, codes,
  ◌≡◌, refl, sym, ap, ◌∙◌, append_assoc, append-nil, inl, inr, Bool-cases, ==_iff,
}
use mathlib.Core.Option
use cloudnan_agent.Executor.Patterns.{one_of}
use cloudnan_agent.Executor.{apostrophe, quoted_apostrophe, quote_arg, full_cmd}
use cloudnan_agent.Text.Lines.{join}
use cloudnan_agent.Text.Search.{replace_byte}

-- Between words, in a word, in a word behind an opening apostrophe, in a word behind a backslash.
pub data Mode : Type 0 where
  between : Mode
  in_word quoted escaped : Bytes → Mode

-- The bytes with a meaning of their own to the shell, which this reader gives up at.
special : ℕ → Bool
unfolding one_of
special c = one_of (codes "|&;<>()$`\"*?[#~=%!{}") c || c == 10

is_blank : ℕ → Bool
is_blank c = c == b' ' || c == 9

-- What follows a byte outside of quotes: a blank, an apostrophe, a backslash or a byte of a word.
abbrev by_byte :
    ℕ
    → Option (List Bytes)
    → Option (List Bytes)
    → Option (List Bytes)
    → Option (List Bytes)
    → Option (List Bytes)
by_byte c blank quote escape word =
    if is_blank c
    then blank
    else if c == apostrophe
    then quote
    else if c == b'\\'
    then escape
    else if special c
    then none
    else word

-- The words of a POSIX shell: blanks part words, an apostrophe quotes up to the next one, a backslash
-- quotes the byte behind it.
unfoldable pub words : Mode → Bytes → Option (List Bytes)
unfolding special is_blank
words between [] = some []
words between (c ∷ s) =
    let word_from = words (in_word (c ∷ [])) s in
    let quote_from = words (quoted []) s in
    let escape_from = words (escaped []) s in
    let next = words between s in by_byte c next quote_from escape_from word_from
words (in_word w) [] = some (w ∷ [])
words (in_word w) (c ∷ s) =
    let word_on = words (in_word (w ++ c ∷ [])) s in
    let quote_on = words (quoted w) s in
    let escape_on = words (escaped w) s in
    let next = words between s in by_byte c (Option.map (◌∷◌ w) next) quote_on escape_on word_on
words (quoted w) [] = none
words (quoted w) (c ∷ s) =
    let on = words (quoted (w ++ c ∷ [])) s in
    let closed = words (in_word w) s in if c == apostrophe then closed else on
words (escaped w) [] = none
words (escaped w) (c ∷ s) = let on = words (in_word (w ++ c ∷ [])) s in if c == 10 then none else on

words_quoted :
    (w arg rest : Bytes)
    → words (quoted w) (replace_byte arg apostrophe quoted_apostrophe ++ (apostrophe ∷ rest))
      ≡ words (in_word (w ++ arg)) rest
unfolding words replace_byte
words_quoted w [] rest = rw append-nil refl
words_quoted w (c ∷ arg) rest = elim (Bool-cases (c == apostrophe)) [
  | inl e ↦ rw e (
      words_quoted (w ++ apostrophe ∷ []) arg rest
      ∙ ap (λ x. words (in_word x) rest)
          (append_assoc w (apostrophe ∷ []) arg
            ∙ ap (λ x. w ++ (x ∷ arg)) (sym ((==_iff c apostrophe).0 e))))
  | inr e ↦ rw e (
      rw e (
        words_quoted (w ++ c ∷ []) arg rest
        ∙ ap (λ x. words (in_word x) rest) (append_assoc w (c ∷ []) arg)))
]

-- A quoted argument at the start of a word.
words-quote_arg :
    (arg rest : Bytes) → words between (quote_arg arg ++ rest) ≡ words (in_word arg) rest
unfolding words quote_arg
words-quote_arg arg rest =
    ap (λ x. words (quoted []) x)
      (append_assoc (replace_byte arg apostrophe quoted_apostrophe) (apostrophe ∷ []) rest)
    ∙ words_quoted [] arg rest

words-blank : (w s : Bytes) → words (in_word w) (b' ' ∷ s) ≡ Option.map (◌∷◌ w) (words between s)
unfolding words
words-blank w s = refl

words-end : (w : Bytes) → words (in_word w) [] ≡ some (w ∷ [])
unfolding words
words-end w = refl

words-join :
    (arg : Bytes) (args : List Bytes)
    → words between (join (map quote_arg (arg ∷ args)) (codes " ")) ≡ some (arg ∷ args)
unfolding join
words-join arg [] =
    ap (λ x. words between x) (sym (append-nil (quote_arg arg)))
    ∙ words-quote_arg arg []
    ∙ words-end arg
words-join arg (next ∷ args) =
    words-quote_arg arg (b' ' ∷ join (map quote_arg (next ∷ args)) (codes " "))
    ∙ words-blank arg (join (map quote_arg (next ∷ args)) (codes " "))
    ∙ ap (Option.map (◌∷◌ arg)) (words-join next args)

by_byte-some :
    (c : ℕ) {a b d e a' b' d' e' r : Option (List Bytes)} {ws : List Bytes}
    → by_byte c a b d e ≡ some ws
    → (a ≡ some ws → a' ≡ r)
    → (b ≡ some ws → b' ≡ r)
    → (d ≡ some ws → d' ≡ r)
    → (e ≡ some ws → e' ≡ r)
    → by_byte c a' b' d' e' ≡ r
by_byte-some c h fa fb fd fe = elim (Bool-cases (is_blank c)) [
  | inl x ↦ rw x (fa (rw x at h))
  | inr x ↦ elim (Bool-cases (c == apostrophe)) [
    | inl y ↦ rw (x, y) (fb (rw (x, y) at h))
    | inr y ↦ elim (Bool-cases (c == b'\\')) [
      | inl z ↦ rw (x, y, z) (fd (rw (x, y, z) at h))
      | inr z ↦ elim (Bool-cases (special c)) [
        | inl v ↦ cc (rw (x, y, z, v) at h)
        | inr v ↦ rw (x, y, z, v) (fe (rw (x, y, z, v) at h))
      ]
    ]
  ]
]

-- The words of two texts, one behind the other.
abbrev pub behind : List Bytes → Option (List Bytes) → Option (List Bytes)
behind ws none = none
behind ws (some more) = some (ws ++ more)

behind-nil : (o : Option (List Bytes)) → o ≡ behind [] o
behind-nil none = refl
behind-nil (some more) = refl

map-behind :
    (w : Bytes) (ws : List Bytes) (o : Option (List Bytes))
    → Option.map (◌∷◌ w) (behind ws o) ≡ behind (w ∷ ws) o
map-behind w ws none = refl
map-behind w ws (some more) = refl

map-some :
    (w : Bytes) (o : Option (List Bytes)) {ws : List Bytes}
    → Option.map (◌∷◌ w) o ≡ some ws
    → (vs : List Bytes) × (o ≡ some vs) × (w ∷ vs ≡ ws)
map-some w none h = cc
map-some w (some vs) h = (vs, refl, cc)

some_inj : (vs ws : List Bytes) → some vs ≡ some ws → vs ≡ ws
some_inj vs ws h = cc

-- Words behind words, with a blank between the texts.
words-append :
    (m : Mode) (s rest : Bytes) {ws : List Bytes}
    → words m s ≡ some ws
    → words m (s ++ (b' ' ∷ rest)) ≡ behind ws (words between rest)
unfolding words
words-append between [] rest {ws} h =
    behind-nil (words between rest) ∙ ap (λ x. behind x (words between rest)) (some_inj [] ws h)
words-append (in_word w) [] rest {ws} h =
    ap (Option.map (◌∷◌ w)) (behind-nil (words between rest))
    ∙ map-behind w [] (words between rest)
    ∙ ap (λ x. behind x (words between rest)) (some_inj (w ∷ []) ws h)
words-append (quoted w) [] rest h = cc
words-append (escaped w) [] rest h = cc
words-append between (c ∷ s) rest h =
    by_byte-some c h (words-append between s rest) (words-append (quoted []) s rest)
      (words-append (escaped []) s rest) (words-append (in_word (c ∷ [])) s rest)
words-append (in_word w) (c ∷ s) rest {ws} h =
    by_byte-some c h (next (λ vs. words-append between s rest {ws = vs}))
      (words-append (quoted w) s rest) (words-append (escaped w) s rest)
      (words-append (in_word (w ++ c ∷ [])) s rest)
  where
    next :
        ((vs : List Bytes)
          → words between s ≡ some vs
          → words between (s ++ (b' ' ∷ rest)) ≡ behind vs (words between rest))
        → Option.map (◌∷◌ w) (words between s) ≡ some ws
        → Option.map (◌∷◌ w) (words between (s ++ (b' ' ∷ rest))) ≡ behind ws (words between rest)
    next rec g =
        let (vs, e, f) = map-some w (words between s) g in
        ap (Option.map (◌∷◌ w)) (rec vs e)
        ∙ map-behind w vs (words between rest)
        ∙ ap (λ x. behind x (words between rest)) f
words-append (quoted w) (c ∷ s) rest h = elim (Bool-cases (c == apostrophe)) [
  | inl e ↦ rw e (words-append (in_word w) s rest (rw e at h))
  | inr e ↦ rw e (words-append (quoted (w ++ c ∷ [])) s rest (rw e at h))
]
words-append (escaped w) (c ∷ s) rest h = elim (Bool-cases (c == 10)) [
  | inl e ↦ absurd (cc (rw e at h))
  | inr e ↦ rw e (words-append (in_word (w ++ c ∷ [])) s rest (rw e at h))
]

-- A reader of shell words reads the command line as the words of the command and then the
-- arguments, each as one word, whatever bytes they hold, if the command is text that it takes for
-- words.
pub words-full_cmd :
    (command : Bytes) (args ws : List Bytes)
    → words between command ≡ some ws
    → words between (full_cmd command args) ≡ some (ws ++ args)
unfolding full_cmd
words-full_cmd command [] ws h = h ∙ ap some (sym (append-nil ws))
words-full_cmd command (arg ∷ args) ws h =
    words-append between command (join (map quote_arg (arg ∷ args)) (codes " ")) h
    ∙ ap (behind ws) (words-join arg args)
