-- ===== src/Executor/Caught.antt =====
-- What blocks a command line: the first pattern that holds somewhere in it.
use cloudnan_agent.Base.{
  Bool, true, false, ◌||◌, List, [], ◌∷◌, ◌++◌, Option, none, some, if◌then◌else◌, Bytes,
  Bool-cases, ◌≡◌, ◌⊎◌, inl, inr, refl, sym, ap, ◌∙◌,
}
use cloudnan_agent.Executor.Patterns.{hard_block_patterns, curl_pipe_shell_pattern}
use cloudnan_agent.Executor.Guards.{is_blocked_lem}
use cloudnan_agent.Executor.{
  matches_any, is_hard_blocked, is_blocked, first_match, matched_hard_block,
}
use cloudnan_agent.Text.Regex.{Regex, match_string}
use cloudnan_agent.Text.Regex.Matches.{Holds}
use cloudnan_agent.Text.Regex.Decides.{match_string-Holds}

abbrev pub block_patterns : List Regex
block_patterns = hard_block_patterns ++ curl_pipe_shell_pattern ∷ []

-- None of the patterns holds in the line.
pub data NoneHolds (cmd : Bytes) : List Regex → Type 0 where
  none_left : NoneHolds cmd []
  not_this :
      {r : Regex} {rs : List Regex} → ¬ Holds r none cmd → NoneHolds cmd rs → NoneHolds cmd (r ∷ rs)

-- The first of the patterns that holds in the line.
pub data FirstHolding (cmd : Bytes) : List Regex → Regex → Type 0 where
  this : {r : Regex} {rs : List Regex} → Holds r none cmd → FirstHolding cmd (r ∷ rs) r
  later :
      {r q : Regex} {rs : List Regex}
      → ¬ Holds q none cmd
      → FirstHolding cmd rs r
      → FirstHolding cmd (q ∷ rs) r

-- What the two ways through a list of patterns say of it.
abbrev Searched : Bytes → List Regex → Bool → Option Regex → Type 0
Searched cmd rs b none = (b ≡ false) × NoneHolds cmd rs
Searched cmd rs b (some r) = (b ≡ true) × FirstHolding cmd rs r

not_holds : (r : Regex) (cmd : Bytes) → match_string r cmd ≡ false → ¬ Holds r none cmd
not_holds r cmd e h = cc (e, (match_string-Holds r cmd).1 h)

next-Searched :
    (cmd : Bytes) (q : Regex) (rs : List Regex) (b : Bool) (o : Option Regex)
    → ¬ Holds q none cmd
    → Searched cmd rs b o
    → Searched cmd (q ∷ rs) b o
next-Searched cmd q rs b none n (e, s) = (e, not_this n s)
next-Searched cmd q rs b (some r) n (e, s) = (e, later n s)

first_match-Searched :
    (rs : List Regex) (cmd : Bytes) → Searched cmd rs (matches_any rs cmd) (first_match rs cmd)
unfolding matches_any first_match
first_match-Searched [] cmd = (refl, none_left)
first_match-Searched (q ∷ rs) cmd = elim (Bool-cases (match_string q cmd)) [
  | inl e ↦ rw e (refl, this ((match_string-Holds q cmd).0 e))
  | inr e ↦ rw e (
      next-Searched cmd q rs (matches_any rs cmd) (first_match rs cmd) (not_holds q cmd e)
        (first_match-Searched rs cmd))
]

pub matches_any_lem :
    (r : Regex) (rs : List Regex) (cmd : Bytes)
    → matches_any (r ∷ rs) cmd ≡ (match_string r cmd || matches_any rs cmd)
unfolding matches_any
matches_any_lem r rs cmd = refl

or_if : (a b c : Bool) → (a || (if b then true else c)) ≡ (if a || b then true else c)
or_if true b c = refl
or_if false b c = refl

or_end : (b : Bool) → (b || false) ≡ (if false then true else b)
or_end true = refl
or_end false = refl

matches_any-snoc :
    (rs : List Regex) (q : Regex) (cmd : Bytes)
    → matches_any (rs ++ q ∷ []) cmd ≡ (if matches_any rs cmd then true else match_string q cmd)
unfolding matches_any
matches_any-snoc [] q cmd = or_end (match_string q cmd)
matches_any-snoc (r ∷ rs) q cmd =
    ap (λ b. match_string r cmd || b) (matches_any-snoc rs q cmd)
    ∙ or_if (match_string r cmd) (matches_any rs cmd) (match_string q cmd)

pub is_hard_blocked_lem : (cmd : Bytes) → is_hard_blocked cmd ≡ matches_any hard_block_patterns cmd
unfolding is_hard_blocked
is_hard_blocked_lem cmd = refl

is_blocked-matches_any : (cmd : Bytes) → matches_any block_patterns cmd ≡ is_blocked cmd
is_blocked-matches_any cmd =
    matches_any-snoc hard_block_patterns curl_pipe_shell_pattern cmd
    ∙ ap (λ b. if b then true else match_string curl_pipe_shell_pattern cmd)
        (sym (is_hard_blocked_lem cmd))
    ∙ sym (is_blocked_lem cmd)

matched_hard_block_lem : (cmd : Bytes) → matched_hard_block cmd ≡ first_match block_patterns cmd
unfolding matched_hard_block
matched_hard_block_lem cmd = refl

read-Searched :
    (cmd : Bytes) (b : Bool) (o m : Option Regex)
    → m ≡ o
    → Searched cmd block_patterns b o
    → ((b ≡ false) × (m ≡ none) × NoneHolds cmd block_patterns)
      ⊎ ((r : Regex) × (b ≡ true) × (m ≡ some r) × FirstHolding cmd block_patterns r)
read-Searched cmd b none m e (h, s) = inl (h, e, s)
read-Searched cmd b (some r) m e (h, s) = inr (r, h, e, s)

-- A command line is blocked, and MatchedHardBlock names the first pattern that holds somewhere in
-- it, or it is not blocked, MatchedHardBlock names none and no pattern holds in it; that a pattern
-- holds is said by the relation of matching.
pub is_blocked-FirstHolding :
    (cmd : Bytes)
    → ((is_blocked cmd ≡ false) × (matched_hard_block cmd ≡ none) × NoneHolds cmd block_patterns)
      ⊎ ((r : Regex) × (is_blocked cmd ≡ true)
          × (matched_hard_block cmd ≡ some r)
          × FirstHolding cmd block_patterns r)
is_blocked-FirstHolding cmd =
    read-Searched cmd (is_blocked cmd) (first_match block_patterns cmd) (matched_hard_block cmd)
      (matched_hard_block_lem cmd)
      (rw (← is_blocked-matches_any cmd) (first_match-Searched block_patterns cmd))
