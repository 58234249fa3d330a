-- ===== src/Drain/Words.antt =====
-- mask.go: how a line is cut into tokens.
use self_hosted_anomaly_dete.Common.{
  ℕ, zero, suc, ◌≤◌, ◌<◌, ◌≡◌, refl, sym, ap, ◌∙◌, Bool, true, false, List, [], ◌∷◌, map, length,
  take, drop, length-drop, arith, if◌then◌else◌,
}
use self_hosted_anomaly_dete.Drain.{Token}
use self_hosted_anomaly_dete.Drain.Mask.{
  is_space, not_space, run_upto, run, mask_dirty, tokenize_from, tokenize,
}

abbrev push_byte : ℕ → List Token → List Token
push_byte c [] = (c ∷ []) ∷ []
push_byte c (w ∷ ws) = (c ∷ w) ∷ ws

-- A byte before `s`, whose words are `ws`: it begins the first word unless white space follows it.
abbrev put_byte : ℕ → Token → List Token → List Token
put_byte c [] ws = (c ∷ []) ∷ []
put_byte c (d ∷ s) ws = if is_space d then (c ∷ []) ∷ ws else push_byte c ws

-- The words of a line, which are its longest runs without white space.
unfoldable pub words_of : Token → List Token
words_of [] = []
words_of (c ∷ s) = let ws = words_of s in if is_space c then ws else put_byte c s ws

-- What the first word of `s` is and what follows it.
abbrev Runs : Token → Type 0
Runs s = words_of s ≡ take (run not_space s) s ∷ words_of (drop (run not_space s) s)

words_of_pushed :
    (c d : ℕ) (s : Token)
    → is_space c ≡ false
    → is_space d ≡ false
    → words_of (c ∷ d ∷ s) ≡ push_byte c (words_of (d ∷ s))
unfolding words_of
words_of_pushed c d s h e = rw (h, e) refl

words_of_cut :
    (c d : ℕ) (s : Token)
    → is_space c ≡ false
    → is_space d ≡ true
    → words_of (c ∷ d ∷ s) ≡ (c ∷ []) ∷ words_of (d ∷ s)
unfolding words_of
words_of_cut c d s h e = rw (h, e) refl

run_none : (d : ℕ) (s : Token) → is_space d ≡ true → run not_space (d ∷ s) ≡ 0
unfolding run_upto
run_none d s e = rw e refl

run_longer :
    (c : ℕ) (s : Token) → is_space c ≡ false → run not_space (c ∷ s) ≡ suc (run not_space s)
unfolding run_upto
run_longer c s h = rw h refl

longer-Runs :
    (c d : ℕ) (s : Token) (b : Bool)
    → is_space c ≡ false
    → is_space d ≡ b
    → (is_space d ≡ false → Runs (d ∷ s))
    → Runs (c ∷ d ∷ s)
longer-Runs c d s true h e more =
    let t : Token = d ∷ s in
    words_of_cut c d s h e
    ∙ sym (
        ap (λ n. take n (c ∷ t) ∷ words_of (drop n (c ∷ t)))
          (run_longer c t h ∙ ap suc (run_none d s e)))
longer-Runs c d s false h e more =
    let t : Token = d ∷ s in
    words_of_pushed c d s h e
    ∙ ap (push_byte c) (more e)
    ∙ sym (ap (λ n. take n (c ∷ t) ∷ words_of (drop n (c ∷ t))) (run_longer c t h))

words_of-Runs : (c : ℕ) (s : Token) → is_space c ≡ false → Runs (c ∷ s)
words_of-Runs c [] h = unfold words_of run_upto in rw h refl
words_of-Runs c (d ∷ s) h = longer-Runs c d s (is_space d) h refl (λ e. words_of-Runs d s e)

run_some : (c : ℕ) (s : Token) → is_space c ≡ false → 0 < run not_space (c ∷ s)
unfolding run_upto
run_some c s h = rw h (omega arith)

abbrev Masks : ℕ → Token → Type 0
Masks fuel s = tokenize_from fuel s ≡ map mask_dirty (words_of s)

step-Masks :
    (fuel c : ℕ) (s : Token) (b : Bool)
    → is_space c ≡ b
    → length s ≤ fuel
    → ((t : Token) → length t ≤ fuel → Masks fuel t)
    → Masks (suc fuel) (c ∷ s)
unfolding tokenize_from words_of
step-Masks fuel c s true e h again =
    let j : ℕ = run not_space (c ∷ s) in
    ap
      (λ b. elim b [
        | true ↦ tokenize_from fuel s
        | false ↦ mask_dirty (take j (c ∷ s)) ∷ tokenize_from fuel (drop j (c ∷ s))
      ])
      e
    ∙ again s h
    ∙ sym (ap (λ b. map mask_dirty (if b then words_of s else put_byte c s (words_of s))) e)
step-Masks fuel c s false e h again =
    let j : ℕ = run not_space (c ∷ s) in
    let rest : Token = drop j (c ∷ s) in
    let short : length rest ≤ fuel = omega (arith, length-drop j (c ∷ s), run_some c s e) in
    ap
      (λ b. elim b [
        | true ↦ tokenize_from fuel s
        | false ↦ mask_dirty (take j (c ∷ s)) ∷ tokenize_from fuel rest
      ])
      e
    ∙ ap (◌∷◌ (mask_dirty (take j (c ∷ s)))) (again rest short)
    ∙ sym (ap (map mask_dirty) (words_of-Runs c s e))

tokenize_from-Masks : (fuel : ℕ) (s : Token) → length s ≤ fuel → Masks fuel s
tokenize_from-Masks fuel [] h = unfold tokenize_from words_of in refl
tokenize_from-Masks zero (c ∷ s) h = absurd (omega arith)
tokenize_from-Masks (suc fuel) (c ∷ s) h =
    step-Masks fuel c s (is_space c) refl (omega arith) (λ t k. tokenize_from-Masks fuel t k)

-- `Tokenize` of any line gives its words, the longest runs without white space, in their order and
-- each masked where it has a digit or an `@`.
pub tokenize-words_of : (line : Token) → tokenize line ≡ map mask_dirty (words_of line)
unfolding tokenize
tokenize-words_of line = tokenize_from-Masks (length line) line (omega arith)
