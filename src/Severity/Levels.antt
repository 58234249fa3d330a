-- ===== src/Severity/Levels.antt =====
-- server.go, `level`: the level of a template does not depend on the order in which a map is
-- visited.
use self_hosted_anomaly_dete.Common.{
  ℕ, ◌≡◌, refl, sym, ap₂, ◌∙◌, ◌⊎◌, inl, inr, Bool, true, false, none, some, List, [], ◌∷◌, arith,
  if◌then◌else◌, if_cases, if_both, if_true, Bool-cases,
}
use mathlib.Core.List.{foldl}
use mathlib.Core.Option.{some-injective}
use mathlib.Core.Path.{subst}
use self_hosted_anomaly_dete.Common.Keys.{nat_eq, list_eq, list_beq, list_beq_iff, lookup, IsMap}
use self_hosted_anomaly_dete.Common.Text.{Text}
use self_hosted_anomaly_dete.State.Load.{lt_text}
use self_hosted_anomaly_dete.Severity.{beats, better, no_level, best_level}

lt_text_trans : (a b c : Text) → lt_text a b ≡ true → lt_text b c ≡ true → lt_text a c ≡ true
unfolding lt_text
lt_text_trans [] [] c h k = absurd (ground (arith, h))
lt_text_trans [] (y ∷ b) [] h k = absurd (ground (arith, k))
lt_text_trans [] (y ∷ b) (z ∷ c) h k = refl
lt_text_trans (x ∷ a) [] c h k = absurd (ground (arith, h))
lt_text_trans (x ∷ a) (y ∷ b) [] h k = absurd (ground (arith, k))
lt_text_trans (x ∷ a) (y ∷ b) (z ∷ c) h k = ground (arith, h, k, lt_text_trans a b c)

lt_text_self : (a : Text) → lt_text a a ≡ false
unfolding lt_text
lt_text_self [] = refl
lt_text_self (x ∷ a) = ground (arith, lt_text_self a)

lt_text_same : (a b : Text) → lt_text a b ≡ false → lt_text b a ≡ false → a ≡ b
unfolding lt_text
lt_text_same [] [] h k = refl
lt_text_same [] (y ∷ b) h k = absurd (ground (arith, h))
lt_text_same (x ∷ a) [] h k = absurd (ground (arith, k))
lt_text_same (x ∷ a) (y ∷ b) h k =
    let heads : x ≡ y = ground (arith, h, k) in
    let tails : a ≡ b = ground (arith, h, k, lt_text_same a b) in ap₂ (λ c s. c ∷ s) heads tails

beats_trans : (p q r : Text × ℕ) → beats p q ≡ true → beats q r ≡ true → beats p r ≡ true
unfolding beats
beats_trans p q r h k = ground (arith, h, k, lt_text_trans p.0 q.0 r.0)

beats_same : (p q : Text × ℕ) → beats p q ≡ false → beats q p ≡ false → p ≡ q
unfolding beats
beats_same p q h k =
    let counts : p.1 ≡ q.1 = ground (arith, h, k) in
    let texts : p.0 ≡ q.0 = ground (arith, h, k, lt_text_same p.0 q.0) in
    ap₂ (λ t n. (t, n)) texts counts

beats_self : (p : Text × ℕ) → beats p p ≡ false
unfolding beats
beats_self p = ground (arith, lt_text_self p.0)

-- None of the levels, nor the one that the loop begins with, comes before the best, which is one of
-- them.
record IsBest (levels : List (Text × ℕ)) (start best : Text × ℕ) : Type 0 where
  first : beats start best ≡ false
  others : (l : Text) (n : ℕ) → lookup l levels ≡ some n → beats (l, n) best ≡ false
  one : (best ≡ start) ⊎ (lookup best.0 levels ≡ some best.1)

-- What does not come before a level does not come before one that the loop takes after it.
still : (p q r : Text × ℕ) → beats p q ≡ false → beats r q ≡ true → beats p r ≡ false
still p q r h k = elim (Bool-cases (beats p r)) [
  | inl y ↦ absurd (ground (arith, h, beats_trans p r q y k))
  | inr n ↦ n
]

better-first : (b p : Text × ℕ) → (beats b (better b p) ≡ false) × (beats p (better b p) ≡ false)
better-first b p =
    if_cases (λ r. (beats b r ≡ false) × (beats p r ≡ false)) (beats p b)
      (λ y. (still b b p (beats_self b) y, beats_self p)) (λ n. (beats_self b, n))

none_between : (p q r : Text × ℕ) → beats p q ≡ false → beats q r ≡ false → beats p r ≡ false
none_between p q r h k = elim (Bool-cases (beats r q)) [
  | inl y ↦ elim (Bool-cases (beats p r)) [
    | inl z ↦ absurd (ground (arith, h, beats_trans p r q z y))
    | inr z ↦ z
  ]
  | inr n ↦ subst (λ t. beats p t ≡ false) (beats_same q r k n) h
]

module _ (l : Text) (n : ℕ) (levels : List (Text × ℕ)) (new : lookup l levels ≡ none)
    (b best : Text × ℕ) (rest : IsBest levels (better b (l, n)) best) where
  others_after :
      (j : Text) (m : ℕ) (e : Bool)
      → list_beq l j ≡ e
      → (if e then some n else lookup j levels) ≡ some m
      → beats (j, m) best ≡ false
  others_after j m true e p =
      subst (λ q. beats q best ≡ false)
        (ap₂ (λ t k. (t, k)) ((list_beq_iff l j).0 e) (some-injective n m p))
        (none_between (l, n) (better b (l, n)) best (better-first b (l, n)).1 rest.first)
  others_after j m false e p = rest.others j m p

  first_or_not :
      best ≡ better b (l, n) → (best ≡ b) ⊎ (lookup best.0 ((l, n) ∷ levels) ≡ some best.1)
  first_or_not e =
      subst (λ q. (q ≡ b) ⊎ (lookup q.0 ((l, n) ∷ levels) ≡ some q.1)) (sym e)
        (if_both (λ q. (q ≡ b) ⊎ (lookup q.0 ((l, n) ∷ levels) ≡ some q.1)) (beats (l, n) b)
          (inr (if_true (list_beq l l) _ _ ((list_beq_iff l l).1 refl))) (inl refl))

  one_after : (best ≡ b) ⊎ (lookup best.0 ((l, n) ∷ levels) ≡ some best.1)
  one_after = elim rest.one [
    | inl e ↦ first_or_not e
    | inr e ↦ inr (ground (arith, e, new, list_beq_iff l best.0))
  ]

  step-IsBest : IsBest ((l, n) ∷ levels) b best
  step-IsBest = record {
    first = none_between b (better b (l, n)) best (better-first b (l, n)).0 rest.first;
    others = λ j m e. others_after j m (list_beq l j) refl e;
    one = one_after;
  }

fold-IsBest :
    (levels : List (Text × ℕ)) (b : Text × ℕ)
    → IsMap levels
    → IsBest levels b (foldl better b levels)
fold-IsBest [] b h = record {
  first = beats_self b;
  others = λ l n e. absurd (ground (arith, e));
  one = inl refl;
}
fold-IsBest ((l, n) ∷ levels) b h =
    step-IsBest l n levels h.0 b (foldl better (better b (l, n)) levels)
      (fold-IsBest levels (better b (l, n)) h.1)

not_before :
    (levels levels' : List (Text × ℕ)) (b b' : Text × ℕ)
    → ((l : Text) → lookup l levels' ≡ lookup l levels)
    → IsBest levels no_level b
    → IsBest levels' no_level b'
    → beats b' b ≡ false
not_before levels levels' b b' same best best' = elim best'.one [
  | inl e ↦ subst (λ q. beats q b ≡ false) (sym e) best.first
  | inr e ↦ best.others b'.0 b'.1 (sym (same b'.0) ∙ e)
]

-- A template's level does not depend on the order in which the map of its levels is visited: two
-- lists that hold the same counts, none of them twice, give the same level.
pub best_level-same :
    (levels levels' : List (Text × ℕ))
    → IsMap levels
    → IsMap levels'
    → ((l : Text) → lookup l levels ≡ lookup l levels')
    → best_level levels ≡ best_level levels'
unfolding best_level
best_level-same levels levels' h h' same =
    let b = fold-IsBest levels no_level h in
    let b' = fold-IsBest levels' no_level h' in
    beats_same (foldl better no_level levels) (foldl better no_level levels')
      (not_before levels' levels _ _ same b' b)
      (not_before levels levels' _ _ (λ l. sym (same l)) b b')
