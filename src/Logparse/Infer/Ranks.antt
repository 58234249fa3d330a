-- ===== src/Logparse/Infer/Ranks.antt =====
-- severity.go: more text does not lower the level.
use self_hosted_anomaly_dete.Common.{
  ℕ, ◌≤◌, ◌≡◌, refl, sym, ap, ap₂, ◌∙◌, max, true, List, [], ◌∷◌, ◌++◌, if◌then◌else◌, arith,
  Bool-cases, inl, inr,
}
use mathlib.Core.List.{append_assoc}
use Prim.Native.String.{String}
use self_hosted_anomaly_dete.Common.Keys.{nat_eq}
use self_hosted_anomaly_dete.Common.Text.{Text, is_white, push_word, split_words, fields}
use self_hosted_anomaly_dete.Logparse.Infer.{
  field_words, template_words, starts_with, has_run, phrase_rank, phrases, rank_of,
}

push_word-append : (w : Text) (ws vs : List Text) → push_word w (ws ++ vs) ≡ push_word w ws ++ vs
push_word-append [] ws vs = refl
push_word-append (c ∷ w) ws vs = refl

split_words_blank :
    (s t : Text) → split_words (s ++ (32 ∷ t)) ≡ ((split_words s).0, (split_words s).1 ++ fields t)
unfolding fields
split_words_blank [] t = refl
split_words_blank (c ∷ s) t =
    ap (λ r. if is_white c then ([], push_word r.0 r.1) else (c ∷ r.0, r.1)) (split_words_blank s t)
    ∙ elim (Bool-cases (is_white c)) [
      | inl e ↦
          rw e
            (ap (λ ws. ([], ws)) (push_word-append (split_words s).0 (split_words s).1 (fields t)))
      | inr e ↦ rw e refl
    ]

fields_blank : (s t : Text) → fields (s ++ (32 ∷ t)) ≡ fields s ++ fields t
unfolding fields
fields_blank s t =
    ap (λ r. push_word r.0 r.1) (split_words_blank s t)
    ∙ push_word-append (split_words s).0 (split_words s).1 (fields t)

template_words-append :
    (xs ys : List Text)
    → template_words (xs ++ ys) ≡ (
      max (template_words xs).0 (template_words ys).0,
      (template_words xs).1 ++ (template_words ys).1,
    )
unfolding template_words
template_words-append [] ys = ap (λ n. (n, (template_words ys).1)) (omega arith)
template_words-append (x ∷ xs) ys =
    ap (λ r. (max (field_words x).0 r.0, (field_words x).1 ++ r.1)) (template_words-append xs ys)
    ∙ ap₂ (λ a b. (a, b)) (omega arith)
        (sym (append_assoc (field_words x).1 (template_words xs).1 (template_words ys).1))

starts_with-append :
    (p : List String) (xs ys : List Text)
    → starts_with p xs ≡ true
    → starts_with p (xs ++ ys) ≡ true
starts_with-append [] xs ys h = refl
starts_with-append (p ∷ ps) [] ys h = absurd (ground arith)
starts_with-append (p ∷ ps) (x ∷ xs) ys h = ground (arith, starts_with-append ps xs ys)

has_run-before :
    (p : List String) (xs ys : List Text) → has_run p ys ≡ true → has_run p (xs ++ ys) ≡ true
unfolding has_run
has_run-before p [] ys h = h
has_run-before p (x ∷ xs) ys h = ground (arith, has_run-before p xs ys h)

has_run-after :
    (p : List String) (xs ys : List Text) → has_run p xs ≡ true → has_run p (xs ++ ys) ≡ true
unfolding has_run
has_run-after p [] [] h = h
has_run-after p [] (y ∷ ys) h = ground (arith, starts_with-append p [] (y ∷ ys) h)
has_run-after p (x ∷ xs) ys h =
    ground (arith, has_run-after p xs ys, starts_with-append p (x ∷ xs) ys)

phrase_rank_mono :
    (ps : List (List String × ℕ)) (xs ys : List Text) (a b : ℕ)
    → ((p : List String) → has_run p xs ≡ true → has_run p ys ≡ true)
    → a ≤ b
    → phrase_rank ps xs a ≤ phrase_rank ps ys b
unfolding phrase_rank
phrase_rank_mono [] xs ys a b h k = k
phrase_rank_mono ((p, level) ∷ ps) xs ys a b h k =
    phrase_rank_mono ps xs ys _ _ h (ground (arith, k, h p))

-- The level of a template is not lower than that of what stands before a blank in it, nor than that
-- of what stands after: `InferLevel` takes the worst, over words and phrases.
pub rank_of_blank :
    (s t : Text) → (rank_of s ≤ rank_of (s ++ (32 ∷ t))) × (rank_of t ≤ rank_of (s ++ (32 ∷ t)))
unfolding rank_of
rank_of_blank s t =
    rw (fields_blank s t, template_words-append (fields s) (fields t))
      (
        phrase_rank_mono phrases xs (xs ++ ys) _ _ (λ p h. has_run-after p xs ys h) (omega arith),
        phrase_rank_mono phrases ys (xs ++ ys) _ _ (λ p h. has_run-before p xs ys h) (omega arith),
      )
  where
    xs : List Text
    xs = (template_words (fields s)).1

    ys : List Text
    ys = (template_words (fields t)).1
