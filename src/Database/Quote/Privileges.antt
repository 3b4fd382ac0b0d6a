-- ===== src/Database/Quote/Privileges.antt =====
-- The privilege list of GRANT and REVOKE: the whitelist of quote.go, and `normalizePrivileges`
-- of internal/database/ops_create.go, which puts the validated names into the statement.
use cloudnan_agent.Base.{
  all-append, ℕ, Bool, true, ◌||◌, List, [], ◌∷◌, ◌++◌, ◌≡◌, refl, arith, ◌==◌, if◌then◌else◌,
  within, all, Bytes, codes, ok, bind-eq-ok, ◌↔◌, Bool-cases, inl, inr,
}
use cloudnan_agent.Database.Quote.{
  privilege_name_matches, privilege_byte, check_privilege, validate_privileges_list,
}
use cloudnan_agent.Text.Case.{equal_fold}
use cloudnan_agent.Text.Lines.{join}

unfoldable pub normalize_privileges : List Bytes → Bytes
unfolding equal_fold join
normalize_privileges [] = codes "ALL PRIVILEGES"
normalize_privileges (p ∷ []) =
    if equal_fold p (codes "ALL") then codes "ALL PRIVILEGES" else join (p ∷ []) (codes ", ")
normalize_privileges (p ∷ q ∷ privs) = join (p ∷ q ∷ privs) (codes ", ")

-- The bytes of a privilege fragment: capitals, blank, underscore and comma.
unfoldable pub fragment_byte : ℕ → Bool
fragment_byte c = within b'A' b'Z' c || c == b' ' || c == b'_' || c == b','

privilege-fragment : (c : ℕ) → privilege_byte c ≡ true → fragment_byte c ≡ true
unfolding privilege_byte fragment_byte
privilege-fragment c h = ground arith

all_fragment : (s : Bytes) → all privilege_byte s ≡ true → all fragment_byte s ≡ true
all_fragment [] h = refl
all_fragment (c ∷ s) h = ground (arith, privilege-fragment c, all_fragment s)

capital-fragment : (c : ℕ) → within b'A' b'Z' c ≡ true → fragment_byte c ≡ true
unfolding fragment_byte
capital-fragment c h = ground arith

matches-fragment : (p : Bytes) → privilege_name_matches p ≡ true → all fragment_byte p ≡ true
unfolding privilege_name_matches
matches-fragment [] h = refl
matches-fragment (c ∷ s) h = ground (arith, all_fragment s, capital-fragment c)

check_privilege-eq-ok : (p : Bytes) → check_privilege p ≡ ok tt → privilege_name_matches p ≡ true
unfolding check_privilege
check_privilege-eq-ok [] h = cc
check_privilege-eq-ok (c ∷ s) h = ground arith

-- The list is accepted exactly when every name matches the whitelist.
pub validate_privileges_list_iff :
    (privs : List Bytes)
    → (validate_privileges_list privs ≡ ok tt) ↔ (all privilege_name_matches privs ≡ true)
unfolding validate_privileges_list
validate_privileges_list_iff privs = (accepted privs, complete privs)
  where
    accepted :
        (l : List Bytes) → validate_privileges_list l ≡ ok tt → all privilege_name_matches l ≡ true
    accepted [] h = refl
    accepted (p ∷ l) h =
        let (_, first, later) =
          bind-eq-ok (check_privilege p) (λ _. validate_privileges_list l) h in
        ground (arith, check_privilege-eq-ok p first, accepted l later)

    complete :
        (l : List Bytes) → all privilege_name_matches l ≡ true → validate_privileges_list l ≡ ok tt
    complete [] h = refl
    complete ([] ∷ l) h = cc
    complete ((c ∷ s) ∷ l) h = ground (arith, complete l)

comma_fragment :
    (s : Bytes) → all fragment_byte s ≡ true → all fragment_byte (codes ", " ++ s) ≡ true
unfolding fragment_byte
comma_fragment s h = h

join-fragment :
    (parts : List Bytes)
    → all privilege_name_matches parts ≡ true
    → all fragment_byte (join parts (codes ", ")) ≡ true
unfolding join
join-fragment [] h = refl
join-fragment (p ∷ []) h = ground (arith, matches-fragment p)
join-fragment (p ∷ q ∷ parts) h =
    all-append fragment_byte p _ (ground (arith, matches-fragment p))
      (comma_fragment _ (join-fragment (q ∷ parts) (ground arith)))

-- What is spliced into GRANT and REVOKE behind the whitelist holds capitals, blanks, underscores
-- and commas alone: no quote, semicolon or comment.
pub normalize_privileges-fragment :
    (privs : List Bytes)
    → validate_privileges_list privs ≡ ok tt
    → all fragment_byte (normalize_privileges privs) ≡ true
unfolding normalize_privileges fragment_byte
normalize_privileges-fragment [] h = refl
normalize_privileges-fragment (p ∷ []) h =
    let inside = join-fragment (p ∷ []) ((validate_privileges_list_iff _).0 h) in
    elim (Bool-cases (equal_fold p (codes "ALL"))) [ inl e ↦ rw e | inr e ↦ rw e inside ]
normalize_privileges-fragment (p ∷ q ∷ privs) h =
    join-fragment (p ∷ q ∷ privs) ((validate_privileges_list_iff _).0 h)
