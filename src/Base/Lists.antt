-- ===== src/Base/Lists.antt =====
-- Lists measured and cut by native numbers, under the library's names, and predicates on lists.
use Prim.Native.Nat.{ℕ, zero, suc, ◌+◌, ◌-◌}
use mathlib.Core.Bool.{Bool, true, ◌&&◌}
use mathlib.Core.List.{List, [], ◌∷◌, ◌++◌}
use mathlib.Core.Logic.{◌⊎◌, inl, inr}
use mathlib.Core.Path.{◌≡◌, refl, sym, subst, ap}
use native.Mathlib.Omega.{arith}

module _ {ℓ} {A : Type ℓ} where
  abbrev pub length : List A → ℕ
  length [] = 0
  length (x ∷ xs) = suc (length xs)

  abbrev pub take : ℕ → List A → List A
  take zero xs = []
  take (suc n) [] = []
  take (suc n) (x ∷ xs) = x ∷ take n xs

  abbrev pub drop : ℕ → List A → List A
  drop zero xs = xs
  drop (suc n) [] = []
  drop (suc n) (x ∷ xs) = drop n xs

  -- Every element passes the test.
  abbrev pub all : (A → Bool) → List A → Bool
  all p [] = true
  all p (x ∷ xs) = p x && all p xs

  abbrev pub flatten : List (List A) → List A
  flatten [] = []
  flatten (xs ∷ xss) = xs ++ flatten xss

  pub length-append : (xs ys : List A) → length (xs ++ ys) ≡ length xs + length ys
  length-append [] ys = omega arith
  length-append (x ∷ xs) ys = omega (arith, length-append xs ys)

module _ {ℓ} {A : Type ℓ} where
  pub take-append-drop : (n : ℕ) (xs : List A) → take n xs ++ drop n xs ≡ xs
  take-append-drop zero xs = refl
  take-append-drop (suc n) [] = refl
  take-append-drop (suc n) (x ∷ xs) = ap (◌∷◌ x) (take-append-drop n xs)

  pub take_append_length : (xs ys : List A) → take (length xs) (xs ++ ys) ≡ xs
  take_append_length [] ys = refl
  take_append_length (x ∷ xs) ys = ap (◌∷◌ x) (take_append_length xs ys)

  pub drop_append_length : (xs ys : List A) → drop (length xs) (xs ++ ys) ≡ ys
  drop_append_length [] ys = refl
  drop_append_length (x ∷ xs) ys = drop_append_length xs ys

  pub length-drop : (n : ℕ) (xs : List A) → length (drop n xs) ≡ length xs - n
  length-drop zero xs = omega arith
  length-drop (suc n) [] = omega arith
  length-drop (suc n) (x ∷ xs) = omega (arith, length-drop n xs)

-- Every element has the property.
abbrev pub Every {ℓ κ} : {A : Type ℓ} → (A → Type κ) → List A → Type κ
Every P [] = Unit
Every P (x ∷ xs) = P x × Every P xs

pub Every-append {ℓ κ} :
    {A : Type ℓ} (P : A → Type κ) (xs ys : List A) → Every P xs → Every P ys → Every P (xs ++ ys)
Every-append P [] ys h k = k
Every-append P (x ∷ xs) ys (p, h) k = (p, Every-append P xs ys h k)

-- The value is one of the list.
pub data Among {A : Type 0} (x : A) : List A → Type 0 where
  first : {y : A} {ys : List A} → x ≡ y → Among x (y ∷ ys)
  next : {y : A} {ys : List A} → Among x ys → Among x (y ∷ ys)

pub Among-left : {A : Type 0} {x : A} {xs : List A} (ys : List A) → Among x xs → Among x (xs ++ ys)
Among-left ys (first e) = first e
Among-left ys (next h) = next (Among-left ys h)

pub Among-right : {A : Type 0} {x : A} (xs : List A) {ys : List A} → Among x ys → Among x (xs ++ ys)
Among-right [] h = h
Among-right (x ∷ xs) h = next (Among-right xs h)

pub Among-append :
    {A : Type 0} {x : A} (xs ys : List A) → Among x (xs ++ ys) → Among x xs ⊎ Among x ys
Among-append [] ys h = inr h
Among-append (y ∷ xs) ys (first e) = inl (first e)
Among-append (y ∷ xs) ys (next h) = elim (Among-append xs ys h) [
  | inl a ↦ inl (next a)
  | inr b ↦ inr b
]

pub Among-Every :
    {A : Type 0} (P : A → Type 0) {x : A} (xs : List A) → Every P xs → Among x xs → P x
Among-Every P [] h m = elim m [ ]
Among-Every P (y ∷ xs) (p, h) (first e) = subst P (sym e) p
Among-Every P (y ∷ xs) (p, h) (next m) = Among-Every P xs h m

pub Every-Among :
    {A : Type 0} (P : A → Type 0) (xs : List A) → ((x : A) → Among x xs → P x) → Every P xs
Every-Among P [] f = tt
Every-Among P (x ∷ xs) f = (f x (first refl), Every-Among P xs (λ y m. f y (next m)))

pub all-append {ℓ} :
    {A : Type ℓ} (p : A → Bool) (xs ys : List A)
    → all p xs ≡ true
    → all p ys ≡ true
    → all p (xs ++ ys) ≡ true
all-append p [] ys h k = k
all-append p (x ∷ xs) ys h k = ground (arith, all-append p xs ys)

pub all-snoc {ℓ} :
    {A : Type ℓ} (p : A → Bool) (xs : List A) (x : A)
    → all p xs ≡ true
    → p x ≡ true
    → all p (xs ++ x ∷ []) ≡ true
all-snoc p xs x h k = all-append p xs (x ∷ []) h (rw k)
