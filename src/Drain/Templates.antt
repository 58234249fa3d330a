-- ===== src/Drain/Templates.antt =====
-- drain.go: what a template says of the lines that it stands for.
use self_hosted_anomaly_dete.Common.{
  ◌≡◌, refl, not, ◌&&◌, ◌⊎◌, ◌↔◌, inl, inr, List, [], ◌∷◌, arith, if◌then◌else◌, length, Bool-cases,
}
use self_hosted_anomaly_dete.Common.Keys.{nat_eq, list_eq, list_beq, list_beq_iff}
use self_hosted_anomaly_dete.Drain.{Token, param, unchanged, generalise, change}

-- A line of a template: as many tokens, each the template's or in a parameter's place.
abbrev pub Matches : List Token → List Token → Type 0
Matches [] [] = Unit
Matches [] (u ∷ toks) = ⊥
Matches (t ∷ tpl) [] = ⊥
Matches (t ∷ tpl) (u ∷ toks) = ((t ≡ param) ⊎ (t ≡ u)) × Matches tpl toks

abbrev merged : Token → Token → Token
merged t u = if not (list_beq t param) && not (list_beq t u) then param else t

merged_own : (t u : Token) → (merged t u ≡ param) ⊎ (merged t u ≡ u)
merged_own t u = elim (Bool-cases (list_beq t param)) [
  | inl e ↦ inl (ground (arith, list_beq_iff t param))
  | inr n ↦ elim (Bool-cases (list_beq t u)) [
    | inl e ↦ inr (ground (arith, list_beq_iff t u))
    | inr n' ↦ inl (ground arith)
  ]
]

merged_keeps : (t u w : Token) → (t ≡ param) ⊎ (t ≡ w) → (merged t u ≡ param) ⊎ (merged t u ≡ w)
merged_keeps t u w (inl p) = inl (ground (arith, list_beq_iff t param))
merged_keeps t u w (inr q) = elim (Bool-cases (not (list_beq t param) && not (list_beq t u))) [
  | inl e ↦ inl (rw e)
  | inr n ↦ inr (rw n q)
]

generalise-own :
    (tpl toks : List Token) → length tpl ≡ length toks → Matches (generalise tpl toks) toks
unfolding generalise
generalise-own [] [] h = tt
generalise-own [] (u ∷ toks) h = absurd (omega arith)
generalise-own (t ∷ tpl) [] h = absurd (omega arith)
generalise-own (t ∷ tpl) (u ∷ toks) h = (merged_own t u, generalise-own tpl toks (omega arith))

generalise-keeps :
    (tpl toks line : List Token) → Matches tpl line → Matches (generalise tpl toks) line
unfolding generalise
generalise-keeps [] toks line m = m
generalise-keeps (t ∷ tpl) [] line m = m
generalise-keeps (t ∷ tpl) (u ∷ toks) [] m = m
generalise-keeps (t ∷ tpl) (u ∷ toks) (w ∷ line) m =
    (merged_keeps t u w m.0, generalise-keeps tpl toks line m.1)

generalise_of_Matches :
    (tpl toks : List Token)
    → Matches tpl toks
    → (generalise tpl toks ≡ tpl) × (change tpl toks ≡ unchanged)
unfolding generalise change
generalise_of_Matches [] [] m = (refl, refl)
generalise_of_Matches [] (u ∷ toks) m = absurd m
generalise_of_Matches (t ∷ tpl) [] m = absurd m
generalise_of_Matches (t ∷ tpl) (u ∷ toks) (p, m) =
    let (same, still) = generalise_of_Matches tpl toks m in
    elim p [
      | inl e ↦ (ground (arith, list_beq_iff t param), ground (arith, list_beq_iff t param))
      | inr e ↦ (ground (arith, list_beq_iff t u), ground (arith, list_beq_iff t u))
    ]

Matches-of_unchanged :
    (tpl toks : List Token)
    → length tpl ≡ length toks
    → change tpl toks ≡ unchanged
    → Matches tpl toks
unfolding change
Matches-of_unchanged [] [] h e = tt
Matches-of_unchanged [] (u ∷ toks) h e = absurd (omega arith)
Matches-of_unchanged (t ∷ tpl) [] h e = absurd (omega arith)
Matches-of_unchanged (t ∷ tpl) (u ∷ toks) h e = elim (Bool-cases (list_beq t param)) [
  | inl p ↦
      (inl ((list_beq_iff t param).0 p), Matches-of_unchanged tpl toks (omega arith) (ground arith))
  | inr p ↦ elim (Bool-cases (list_beq t u)) [
    | inl q ↦
        (inr ((list_beq_iff t u).0 q), Matches-of_unchanged tpl toks (omega arith) (ground arith))
    | inr q ↦ absurd (ground arith)
  ]
]

-- `Add` merges a line into a template of as many tokens: the line becomes a line of the template,
-- and every line that was one stays one. The reported change is `None`, and the template as it was,
-- exactly when the line was one of its lines already.
pub generalise_lem :
    (tpl toks line : List Token)
    → length tpl ≡ length toks
    → Matches tpl line
    → Matches (generalise tpl toks) toks
      × Matches (generalise tpl toks) line
      × ((change tpl toks ≡ unchanged) ↔ Matches tpl toks)
      × ((generalise tpl toks ≡ tpl) ↔ Matches tpl toks)
generalise_lem tpl toks line h k = (
  generalise-own tpl toks h,
  generalise-keeps tpl toks line k,
  (λ e. Matches-of_unchanged tpl toks h e, λ m. (generalise_of_Matches tpl toks m).1),
  (λ e. rw e at (generalise-own tpl toks h), λ m. (generalise_of_Matches tpl toks m).0),
)
