-- ===== src/Filesystem/Manager/Confinement.antt =====
-- Where `resolvePath` of internal/filesystem/manager.go lets a path lead.
use cloudnan_agent.Base.{
  ℕ, Bool, true, false, List, [], ◌∷◌, ◌++◌, if◌then◌else◌, Bytes, codes, Outcome, ok, err, ◌≡◌,
  inl, inr, refl, sym, ap, ◌∙◌, arith, all, Bool-cases, append_assoc,
}
use cloudnan_agent.Filesystem.Manager.{Os, access_denied, escapes, resolve_path}
use cloudnan_agent.Text.Case.{bytes_equal}
use cloudnan_agent.Text.Case.Laws.{bytes_equal-eq}
use cloudnan_agent.Text.FilePath.Laws.{
  normal, IsClean, clean-IsClean, split_byte-append, split_byte-join,
}
use cloudnan_agent.Text.FilePath.{slash, clean, join_paths, is_abs}
use cloudnan_agent.Text.Lines.{join, split_byte}
use cloudnan_agent.Text.Search.{has_prefix}

-- The path `q` is the root, or leads down from it by parts that are names: none is empty, `.` or
-- `..`.
pub data Confined (root : Bytes) : Bytes → Type 0 where
  whole_tree : {q : Bytes} → root ≡ codes "/" → IsClean q → Confined root q
  at_root : {q : Bytes} → q ≡ root → Confined root q
  below :
      {q : Bytes} (rest : Bytes)
      → q ≡ root ++ (slash ∷ rest)
      → all normal (split_byte rest slash) ≡ true
      → Confined root q

has_prefix-append : (s p : Bytes) → has_prefix s p ≡ true → (rest : Bytes) × (s ≡ p ++ rest)
unfolding has_prefix
has_prefix-append s [] h = (s, refl)
has_prefix-append [] (x ∷ p) h = cc
has_prefix-append (c ∷ s) (x ∷ p) h =
    let (rest, e) = has_prefix-append s p (ground arith) in (rest, ground arith)

all_append_right :
    (p : Bytes → Bool) (xs ys : List Bytes) → all p (xs ++ ys) ≡ true → all p ys ≡ true
all_append_right p [] ys h = h
all_append_right p (x ∷ xs) ys h = all_append_right p xs ys (ground arith)

behind_first : Bytes → Bytes
behind_first [] = []
behind_first (c ∷ s) = s

nil_ne_middle : (a : Bytes) (c : ℕ) (b : Bytes) → [] ≡ a ++ (c ∷ b) → ⊥
nil_ne_middle [] c b e = cc
nil_ne_middle (d ∷ a) c b e = cc

-- What stands behind one clean path in another is made of names.
below_clean :
    (root q rest : Bytes)
    → IsClean root
    → IsClean q
    → q ≡ root ++ (slash ∷ rest)
    → all normal (split_byte rest slash) ≡ true
unfolding behind_first
below_clean root q rest r k e = by_parts k.parts k.parts_normal inner
  where
    inner : join k.parts (slash ∷ []) ≡ join r.parts (slash ∷ []) ++ (slash ∷ rest)
    inner = ap behind_first (sym k.spelled ∙ e ∙ ap (λ t. t ++ (slash ∷ rest)) r.spelled)

    by_parts :
        (parts : List Bytes)
        → all normal parts ≡ true
        → join parts (slash ∷ []) ≡ join r.parts (slash ∷ []) ++ (slash ∷ rest)
        → all normal (split_byte rest slash) ≡ true
    by_parts [] h f =
        absurd (nil_ne_middle (join r.parts (slash ∷ [])) slash rest (unfold join in f))
    by_parts (p ∷ ps) h f =
        all_append_right normal (split_byte (join r.parts (slash ∷ [])) slash)
          (split_byte rest slash)
          (rw (← split_byte-append (join r.parts (slash ∷ [])) rest, ← f, split_byte-join p ps h) h)

is_abs-clean : (s : Bytes) → is_abs s ≡ true → is_abs (clean s) ≡ true
is_abs-clean s h = rw (clean-IsClean s h).spelled

join_paths-abs :
    (c : ℕ) (s p : Bytes) → is_abs (c ∷ s) ≡ true → is_abs (join_paths ((c ∷ s) ∷ p ∷ [])) ≡ true
unfolding join_paths
join_paths-abs c s p h = is_abs-clean (join ((c ∷ s) ∷ p ∷ []) (slash ∷ [])) h

-- What the escape test lets through.
escapes-Confined :
    (root q : Bytes) → IsClean root → IsClean q → escapes root q ≡ false → Confined root q
unfolding escapes
escapes-Confined root q r k h = elim (Bool-cases (bytes_equal root (codes "/"))) [
  | inl e ↦ whole_tree (bytes_equal-eq root (codes "/") e) k
  | inr e ↦ elim (Bool-cases (bytes_equal q root)) [
    | inl f ↦ at_root (bytes_equal-eq q root f)
    | inr f ↦
        let (rest, g) = has_prefix-append q (root ++ codes "/") (ground arith) in
        let split : q ≡ root ++ (slash ∷ rest) = g ∙ append_assoc root (codes "/") rest in
        below rest split (below_clean root q rest r k split)
  ]
]

guarded :
    {E : Type 0} (e : E) (b : Bool) (x q : Bytes)
    → ◌≡◌ {A = Outcome E Bytes} (if b then err e else ok x) (ok q)
    → (b ≡ false) × (x ≡ q)
guarded e true x q h = absurd (cc)
guarded e false x q h = (refl, cc)

module _ {State OsError : Type 0} (os : Os State OsError) where
  -- A path that is resolved under an absolute root is the root or leads down from it by names
  -- alone: no part of it is empty, a dot or two dots.
  pub resolve_path-Confined :
      (root p : Bytes) {q : Bytes}
      → is_abs root ≡ true
      → resolve_path os root p ≡ ok q
      → Confined (clean root) q
  unfolding resolve_path
  resolve_path-Confined [] p h r = cc
  resolve_path-Confined (c ∷ s) p {q} h r =
      let cleaned = clean (join_paths ((c ∷ s) ∷ p ∷ [])) in
      let (inside, same) = guarded access_denied (escapes (clean (c ∷ s)) cleaned) cleaned q r in
      rw (← same) (
        escapes-Confined (clean (c ∷ s)) cleaned (clean-IsClean (c ∷ s) h)
          (clean-IsClean (join_paths ((c ∷ s) ∷ p ∷ [])) (join_paths-abs c s p h)) inside)

  -- A path is refused, or is resolved to a confined one.
  pub data Resolves (root p : Bytes) : Type 0 where
    refused : resolve_path os root p ≡ err access_denied → Resolves root p
    resolved :
        (q : Bytes) → resolve_path os root p ≡ ok q → Confined (clean root) q → Resolves root p

  pub resolve_path-Resolves : (root p : Bytes) → is_abs root ≡ true → Resolves root p
  unfolding resolve_path
  resolve_path-Resolves [] p h = cc
  resolve_path-Resolves (c ∷ s) p h =
      let cleaned = clean (join_paths ((c ∷ s) ∷ p ∷ [])) in
      elim (Bool-cases (escapes (clean (c ∷ s)) cleaned)) [
        | inl e ↦ refused (rw e)
        | inr e ↦ resolved cleaned (rw e) (
            escapes-Confined (clean (c ∷ s)) cleaned (clean-IsClean (c ∷ s) h)
              (clean-IsClean (join_paths ((c ∷ s) ∷ p ∷ [])) (join_paths-abs c s p h)) e)
      ]
