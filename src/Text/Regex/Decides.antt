-- ===== src/Text/Regex/Decides.antt =====
-- The matcher decides the relation.
use cloudnan_agent.Base.{
  ℕ, zero, suc, ◌≤◌, ◌<◌, Bool, true, false, [], ◌∷◌, Option, none, some, ◌≡◌, ◌↔◌, ◌⊎◌, inl, inr,
  refl, sym, subst, arith, length, Bytes,
}
use cloudnan_agent.Text.Regex.{
  Place, Regex, empty, class, seq, alt, star, word_boundary, text_end, at_boundary, at_end, shorter,
  rounds, run, search_from, match_string,
}
use cloudnan_agent.Text.Regex.Matches.{
  Matches, nothing, byte, both, left, right, leave, again, boundary, stop, Onward, Matches-Onward,
  Holds, here, behind,
}

-- The pattern leads to a place where the continuation goes on.
abbrev Leads : Regex → (Place → Bool) → Place → Type 0
Leads r k a = (b : Place) × Matches r a b × (k b ≡ true)

guard_true : (b x : Bool) → elim b [ true ↦ x | false ↦ false ] ≡ true → (b ≡ true) × (x ≡ true)
guard_true true x h = (refl, h)
guard_true false x h = cc

either_true : (b x : Bool) → elim b [ true ↦ true | false ↦ x ] ≡ true → (b ≡ true) ⊎ (x ≡ true)
either_true true x h = inl refl
either_true false x h = inr h

abbrev Sound : Regex → Type 0
Sound r = (k : Place → Bool) (a : Place) → run r k a ≡ true → Leads r k a

rounds-Sound :
    (r : Regex)
    → Sound r
    → (k : Place → Bool) (n : ℕ) (a : Place) → rounds (run r) k n a ≡ true
    → Leads (star r) k a
unfolding rounds
rounds-Sound r ih k zero a h = (a, leave, h)
rounds-Sound r ih k (suc n) a h = by_case (either_true (k a) _ h) (rounds-Sound r ih k n)
  where
    by_case :
        (k a ≡ true)
          ⊎ (run r
                (λ next. elim (shorter next a) [ true ↦ rounds (run r) k n next | false ↦ false ])
                a
              ≡ true)
        → ((b : Place) → rounds (run r) k n b ≡ true → Leads (star r) k b)
        → Leads (star r) k a
    by_case (inl e) rec = (a, leave, e)
    by_case (inr g) rec =
        let (b, d, e) = ih _ a g in
        let (c, d', e') = rec b (guard_true (shorter b a) _ e).1 in (c, again d d', e')

run-Sound : (r : Regex) → Sound r
unfolding run
run-Sound empty k a h = (a, nothing, h)
run-Sound (class f) k (p, []) h = cc
run-Sound (class f) k (p, c ∷ s) h = let (e, g) = guard_true (f c) _ h in ((some c, s), byte e, g)
run-Sound (seq r q) k a h =
    let (b, d, e) = run-Sound r (run q k) a h in
    let (c, d', e') = run-Sound q k b e in (c, both d d', e')
run-Sound (alt r q) k a h =
    by_case (either_true (run r k a) _ h) (run-Sound r k a) (run-Sound q k a)
  where
    by_case :
        (run r k a ≡ true) ⊎ (run q k a ≡ true)
        → (run r k a ≡ true → Leads r k a)
        → (run q k a ≡ true → Leads q k a)
        → Leads (alt r q) k a
    by_case (inl e) f g = let (b, d, e') = f e in (b, left d, e')
    by_case (inr e) f g = let (b, d, e') = g e in (b, right d, e')
run-Sound (star r) k a h = rounds-Sound r (run-Sound r) k (length a.1) a h
run-Sound word_boundary k a h = let (e, g) = guard_true (at_boundary a) _ h in (a, boundary e, g)
run-Sound text_end k a h = let (e, g) = guard_true (at_end a) _ h in (a, stop e, g)

abbrev Complete : Regex → Type 0
Complete r = (k : Place → Bool) (a b : Place) → Matches r a b → k b ≡ true → run r k a ≡ true

either_left : (b x : Bool) → b ≡ true → elim b [ true ↦ true | false ↦ x ] ≡ true
either_left true x h = refl
either_left false x h = cc

guard_of : (b x : Bool) → b ≡ true → x ≡ true → elim b [ true ↦ x | false ↦ false ] ≡ true
guard_of true x h e = e
guard_of false x h e = cc

rounds_at_once :
    (r : Regex) (k : Place → Bool) (n : ℕ) (a : Place) → k a ≡ true → rounds (run r) k n a ≡ true
unfolding rounds
rounds_at_once r k zero a h = h
rounds_at_once r k (suc n) a h = either_left (k a) _ h

either_right : (b x : Bool) → x ≡ true → elim b [ true ↦ true | false ↦ x ] ≡ true
either_right true x h = refl
either_right false x h = h

shorter-true : (a b : Place) → length b.1 < length a.1 → shorter b a ≡ true
shorter-true (p, s) (q, t) h = ground arith

rounds_next :
    (r : Regex)
    → Complete r
    → (k : Place → Bool) (n : ℕ) (a b : Place) → Matches r a b
    → length b.1 < length a.1
    → rounds (run r) k n b ≡ true
    → rounds (run r) k (suc n) a ≡ true
unfolding rounds
rounds_next r ih k n a b d h e = either_right (k a) _ (ih _ a b d (rw (shorter-true a b h) e))

rounds-Complete :
    (r : Regex)
    → Complete r
    → (k : Place → Bool) (n : ℕ) {a b : Place} → Matches (star r) a b
    → k b ≡ true
    → length a.1 ≤ n
    → rounds (run r) k n a ≡ true
rounds-Complete r ih k n {a} leave h l = rounds_at_once r k n a h
rounds-Complete r ih k n {a} (again {b} d e) h l =
    by_progress n l (Matches-Onward d) (λ m. rounds-Complete r ih k m e h)
  where
    by_progress :
        (n : ℕ)
        → length a.1 ≤ n
        → Onward a b
        → ((m : ℕ) → length b.1 ≤ m → rounds (run r) k m b ≡ true)
        → rounds (run r) k n a ≡ true
    by_progress n l (inl same) rec =
        subst (λ x. rounds (run r) k n x ≡ true) (sym same) (rec n (rw (← same) l))
    by_progress zero l (inr g) rec = absurd (omega arith)
    by_progress (suc n) l (inr g) rec = rounds_next r ih k n a b d g (rec n (omega arith))

run-Complete : (r : Regex) → Complete r
unfolding run
run-Complete empty k a b nothing h = h
run-Complete (class f) k a b (byte {c} e) h = guard_of (f c) _ e h
run-Complete (seq r q) k a c (both {b} d d') h =
    run-Complete r (run q k) a b d (run-Complete q k b c d' h)
run-Complete (alt r q) k a b (left d) h =
    either_left (run r k a) (run q k a) (run-Complete r k a b d h)
run-Complete (alt r q) k a b (right d) h = either_right (run r k a) _ (run-Complete q k a b d h)
run-Complete (star r) k a b d h =
    rounds-Complete r (run-Complete r) k (length a.1) d h (omega arith)
run-Complete word_boundary k a b (boundary e) h = guard_of (at_boundary a) _ e h
run-Complete text_end k a b (stop e) h = guard_of (at_end a) _ e h

search_from→Holds : (r : Regex) (p : Option ℕ) (s : Bytes) → search_from r p s ≡ true → Holds r p s
unfolding search_from
search_from→Holds r p [] h = let (b, d, e) = run-Sound r _ (p, []) h in here d
search_from→Holds r p (c ∷ s) h =
    by_case (either_true _ (search_from r (some c) s) h) (search_from→Holds r (some c) s)
  where
    by_case :
        (run r (λ at. true) (p, c ∷ s) ≡ true) ⊎ (search_from r (some c) s ≡ true)
        → (search_from r (some c) s ≡ true → Holds r (some c) s)
        → Holds r p (c ∷ s)
    by_case (inl e) rec = let (b, d, e') = run-Sound r _ (p, c ∷ s) e in here d
    by_case (inr e) rec = behind (rec e)

Holds→search_from : {r : Regex} {p : Option ℕ} {s : Bytes} → Holds r p s → search_from r p s ≡ true
unfolding search_from
Holds→search_from {r} {p} {s = []} (here {b} d) = run-Complete r _ (p, []) b d refl
Holds→search_from {r} {p} {s = c ∷ s} (here {b} d) =
    either_left _ (search_from r (some c) s) (run-Complete r _ (p, c ∷ s) b d refl)
Holds→search_from {r} {p} {s = c ∷ s} (behind h) =
    either_right _ (search_from r (some c) s) (Holds→search_from h)

-- `MatchString` answers whether the text holds a match.
pub match_string-Holds : (r : Regex) (s : Bytes) → (match_string r s ≡ true) ↔ Holds r none s
unfolding match_string
match_string-Holds r s = (search_from→Holds r none s, Holds→search_from)
