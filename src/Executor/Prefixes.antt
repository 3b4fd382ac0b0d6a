-- ===== src/Executor/Prefixes.antt =====
-- A caught command stays caught behind any text that ends in a byte outside of words.
use cloudnan_agent.Base.{
  ℕ, Bool, true, false, ◌||◌, List, [], ◌∷◌, ◌++◌, Option, none, some, Bytes, ◌≡◌, refl, sym, ap,
  ◌∙◌, ◌⊎◌, inl, inr, if◌then◌else◌,
}
use mathlib.Core.Path.{ap₂}
use cloudnan_agent.Executor.Patterns.{hard_block_patterns, curl_pipe_shell_pattern}
use cloudnan_agent.Executor.{matches_any, is_hard_blocked, is_blocked}
use cloudnan_agent.Executor.Caught.{matches_any_lem, is_hard_blocked_lem}
use cloudnan_agent.Executor.Guards.{is_blocked_lem}
use cloudnan_agent.Text.Regex.{
  Place, Regex, word, word_before, word_behind, differ, at_end, match_string,
}
use cloudnan_agent.Text.Regex.Matches.{
  Matches, nothing, byte, both, left, right, leave, again, boundary, stop, Holds, here, behind,
}
use cloudnan_agent.Text.Regex.Decides.{match_string-Holds}

-- Two places with the same text behind them and the same answer at `\b`.
record Alike (a b : Place) : Type 0 where
  text : a.1 ≡ b.1
  before : word_before a.0 ≡ word_before b.0

abbrev Moved : Regex → Place → Place → Type 0
Moved r a' b = (b' : Place) × Matches r a' b' × Alike b b'

at_end-text :
    (at : Place) (p : Option ℕ) (s : Bytes) → at.1 ≡ s → at_end at ≡ true → at_end (p, s) ≡ true
at_end-text (q, []) p [] e h = refl
at_end-text (q, []) p (c ∷ s) e h = cc
at_end-text (q, c ∷ t) p s e h = cc

Matches-Alike : {r : Regex} {a b : Place} (a' : Place) → Matches r a b → Alike a a' → Moved r a' b
Matches-Alike a' nothing i = (a', nothing, i)
Matches-Alike (p', []) (byte h) i = cc
Matches-Alike (p', d ∷ s') (byte {f} {c} {s} h) i =
    let same : c ≡ d = cc in
    let rest : s ≡ s' = cc in
    ((some d, s'), byte (rw (← same) h), record { text = rest; before = ap word same })
Matches-Alike a' (both d e) i =
    let (b', d', j) = Matches-Alike a' d i in
    let (c', e', k) = Matches-Alike b' e j in (c', both d' e', k)
Matches-Alike a' (left d) i = let (b', d', j) = Matches-Alike a' d i in (b', left d', j)
Matches-Alike a' (right d) i = let (b', d', j) = Matches-Alike a' d i in (b', right d', j)
Matches-Alike a' leave i = (a', leave, i)
Matches-Alike a' (again d e) i =
    let (b', d', j) = Matches-Alike a' d i in
    let (c', e', k) = Matches-Alike b' e j in (c', again d' e', k)
Matches-Alike (p', s') (boundary {at} h) i =
    ((p', s'), boundary (ap₂ differ (sym i.before) (ap word_behind (sym i.text)) ∙ h), i)
Matches-Alike (p', s') (stop {at} h) i = ((p', s'), stop (at_end-text at p' s' i.text h), i)

Holds-moved :
    {r : Regex} {p : Option ℕ} {s : Bytes} (p' : Option ℕ)
    → Holds r p s
    → word_before p ≡ word_before p'
    → Holds r p' s
Holds-moved {s} p' (here d) e =
    let (b', d', j) = Matches-Alike (p', s) d (record { text = refl; before = e }) in here d'
Holds-moved p' (behind h) e = behind h

-- The byte in front of the text is not one of a word.
Holds-append :
    (r : Regex) (p : Option ℕ) (u : Bytes) (c : ℕ) (s : Bytes)
    → word c ≡ false
    → Holds r none s
    → Holds r p (u ++ (c ∷ s))
Holds-append r p [] c s w h = behind (Holds-moved (some c) h (sym w))
Holds-append r p (d ∷ u) c s w h = behind (Holds-append r (some d) u c s w h)

match_string-append :
    (r : Regex) (u : Bytes) (c : ℕ) (s : Bytes)
    → word c ≡ false
    → match_string r s ≡ true
    → match_string r (u ++ (c ∷ s)) ≡ true
match_string-append r u c s w h =
    (match_string-Holds r (u ++ (c ∷ s))).1
      (Holds-append r none u c s w ((match_string-Holds r s).0 h))

or_cases : (a b : Bool) → (a || b) ≡ true → (a ≡ true) ⊎ (b ≡ true)
or_cases true b h = inl refl
or_cases false b h = inr h

or_left : (a b : Bool) → a ≡ true → (a || b) ≡ true
or_left true b h = refl
or_left false b h = cc

or_right : (a b : Bool) → b ≡ true → (a || b) ≡ true
or_right true b h = refl
or_right false b h = h

matches_any-append :
    (rs : List Regex) (u : Bytes) (c : ℕ) (s : Bytes)
    → word c ≡ false
    → matches_any rs s ≡ true
    → matches_any rs (u ++ (c ∷ s)) ≡ true
matches_any-append [] u c s w h = unfold matches_any in h
matches_any-append (r ∷ rs) u c s w h =
    matches_any_lem r rs (u ++ (c ∷ s))
    ∙ by_first (or_cases (match_string r s) (matches_any rs s) (sym (matches_any_lem r rs s) ∙ h))
        (matches_any-append rs u c s w)
  where
    by_first :
        (match_string r s ≡ true) ⊎ (matches_any rs s ≡ true)
        → (matches_any rs s ≡ true → matches_any rs (u ++ (c ∷ s)) ≡ true)
        → (match_string r (u ++ (c ∷ s)) || matches_any rs (u ++ (c ∷ s))) ≡ true
    by_first (inl e) rec =
        or_left (match_string r (u ++ (c ∷ s))) (matches_any rs (u ++ (c ∷ s)))
          (match_string-append r u c s w e)
    by_first (inr e) rec =
        or_right (match_string r (u ++ (c ∷ s))) (matches_any rs (u ++ (c ∷ s))) (rec e)

pub is_hard_blocked-append :
    (u : Bytes) (c : ℕ) (s : Bytes)
    → word c ≡ false
    → is_hard_blocked s ≡ true
    → is_hard_blocked (u ++ (c ∷ s)) ≡ true
is_hard_blocked-append u c s w h =
    is_hard_blocked_lem (u ++ (c ∷ s))
    ∙ matches_any-append hard_block_patterns u c s w (sym (is_hard_blocked_lem s) ∙ h)

if_cases : (a b : Bool) → (if a then true else b) ≡ true → (a ≡ true) ⊎ (b ≡ true)
if_cases true b h = inl refl
if_cases false b h = inr h

if_of : (a b : Bool) → (a ≡ true) ⊎ (b ≡ true) → (if a then true else b) ≡ true
if_of true b h = refl
if_of false b (inl h) = cc
if_of false b (inr h) = h

-- A command line that is blocked stays blocked behind any text and a byte that is not one of a
-- word, such as a blank, a semicolon or an apostrophe; so does one that is blocked for the
-- installer too.
pub is_blocked-append :
    (u : Bytes) (c : ℕ) (s : Bytes)
    → word c ≡ false
    → (is_blocked s ≡ true → is_blocked (u ++ (c ∷ s)) ≡ true)
      × (is_hard_blocked s ≡ true → is_hard_blocked (u ++ (c ∷ s)) ≡ true)
is_blocked-append u c s w = (blocked, is_hard_blocked-append u c s w)
  where
    kept :
        (is_hard_blocked s ≡ true) ⊎ (match_string curl_pipe_shell_pattern s ≡ true)
        → (is_hard_blocked (u ++ (c ∷ s)) ≡ true)
          ⊎ (match_string curl_pipe_shell_pattern (u ++ (c ∷ s)) ≡ true)
    kept (inl e) = inl (is_hard_blocked-append u c s w e)
    kept (inr e) = inr (match_string-append curl_pipe_shell_pattern u c s w e)

    blocked : is_blocked s ≡ true → is_blocked (u ++ (c ∷ s)) ≡ true
    blocked h =
        is_blocked_lem (u ++ (c ∷ s))
        ∙ if_of (is_hard_blocked (u ++ (c ∷ s)))
            (match_string curl_pipe_shell_pattern (u ++ (c ∷ s)))
            (kept (
              if_cases (is_hard_blocked s) (match_string curl_pipe_shell_pattern s)
                (sym (is_blocked_lem s) ∙ h)))
