-- ===== src/Agent/Tail/Chunks.antt =====
-- agent.go, `read`: the lines do not depend on how the file is cut into chunks.
use self_hosted_anomaly_dete.Common.{
  ℕ, zero, suc, ◌+◌, ◌≤◌, ◌<◌, sym, ◌≡◌, refl, ap, ◌∙◌, false, Option, none, some, List, [], ◌∷◌,
  ◌++◌, ltb, ◌==◌, if◌then◌else◌, length, arith, All, length-append, if_true, if_false, inl, inr,
  Bool-cases, if_cases,
}
use mathlib.Core.Path.{subst}
use mathlib.Core.List.{foldl, append_assoc, append-nil, foldl-append}
use self_hosted_anomaly_dete.Common.Text.{Text, cut_at, Lacks, IsCut, cut_at-IsCut}
use self_hosted_anomaly_dete.Agent.Tail.{
  runaway, read_limit, whole_line, keep_partial, read_chunk, read,
}

-- The lines of a text that a line feed ends, and what stands behind the last.
abbrev pub push_byte : ℕ → List Text × Text → List Text × Text
push_byte c ([], partial) = ([], c ∷ partial)
push_byte c (l ∷ ls, partial) = ((c ∷ l) ∷ ls, partial)

abbrev pub lines_of : Text → List Text × Text
lines_of [] = ([], [])
lines_of (c ∷ s) =
    let (ls, partial) = lines_of s in
    if c == 10 then ([] ∷ ls, partial) else push_byte c (ls, partial)

abbrev pub IsShort : List Text × Text → Type 0
IsShort r = All (λ l. length l ≤ runaway) r.0 × (length r.1 ≤ runaway)

abbrev pub concat : List Text → Text
concat [] = []
concat (c ∷ cs) = c ++ concat cs

abbrev pub after {ℓ} : {S : Type ℓ} → (S → Text → S) → S → List Text × Text → S × Text
after mine s r = (foldl mine s r.0, r.1)

lines_of-feed :
    (x s : Text) → Lacks 10 x → lines_of (x ++ (10 ∷ s)) ≡ (x ∷ (lines_of s).0, (lines_of s).1)
lines_of-feed [] s h = refl
lines_of-feed (c ∷ x) s h = rw (h.0, lines_of-feed x s h.1) refl

lines_of-partial : (x : Text) → Lacks 10 x → lines_of x ≡ ([], x)
lines_of-partial [] h = refl
lines_of-partial (c ∷ x) h = rw (h.0, lines_of-partial x h.1) refl

abbrev join_lines : List Text × Text → Text → List Text × Text
join_lines (ls, q) y = (ls ++ (lines_of (q ++ y)).0, (lines_of (q ++ y)).1)

push_byte-join_lines :
    (c : ℕ) (r : List Text × Text) (y : Text)
    → (c == 10) ≡ false
    → push_byte c (join_lines r y) ≡ join_lines (push_byte c r) y
push_byte-join_lines c ([], q) y h = rw h refl
push_byte-join_lines c (l ∷ ls, q) y h = refl

lines_of-append : (x y : Text) → lines_of (x ++ y) ≡ join_lines (lines_of x) y
lines_of-append [] y = refl
lines_of-append (c ∷ x) y = elim (Bool-cases (c == 10)) [
  | inl e ↦ rw (e, lines_of-append x y) refl
  | inr e ↦ rw (e, lines_of-append x y) (push_byte-join_lines c (lines_of x) y e)
]

push_byte-Lacks :
    (c : ℕ) (r : List Text × Text) → (c == 10) ≡ false → Lacks 10 r.1 → Lacks 10 (push_byte c r).1
push_byte-Lacks c ([], q) h l = (h, l)
push_byte-Lacks c (m ∷ ms, q) h l = l

lines_of-Lacks : (x : Text) → Lacks 10 (lines_of x).1
lines_of-Lacks [] = tt
lines_of-Lacks (c ∷ x) =
    if_cases {A = List Text × Text} (λ r. Lacks 10 r.1) (c == 10) (λ e. lines_of-Lacks x)
      (λ e. push_byte-Lacks c (lines_of x) e (lines_of-Lacks x))

Lacks-append : (c : ℕ) (x y : Text) → Lacks c x → Lacks c y → Lacks c (x ++ y)
Lacks-append c [] y h k = k
Lacks-append c (d ∷ x) y h k = (h.0, Lacks-append c x y h.1 k)

-- A text with its partial line cut off where `y` brings the line feed.
lines_of-cut :
    (p before rest : Text)
    → Lacks 10 p
    → Lacks 10 before
    → lines_of (p ++ (before ++ (10 ∷ rest)))
      ≡ ((p ++ before) ∷ (lines_of rest).0, (lines_of rest).1)
lines_of-cut p before rest h k =
    ap lines_of (sym (append_assoc p before (10 ∷ rest)))
    ∙ lines_of-feed (p ++ before) rest (Lacks-append 10 p before h k)

IsShort-along : (r r' : List Text × Text) → r ≡ r' → IsShort r → IsShort r'
IsShort-along r r' e = subst IsShort e

-- What a text is, cut at its first line feed, behind a partial line.
abbrev shape : Text → Text → Option (Text × Text) → List Text × Text
shape p y none = ([], p ++ y)
shape p y (some (before, rest)) = ((p ++ before) ∷ (lines_of rest).0, (lines_of rest).1)

lines_of-shape :
    (p y : Text) (o : Option (Text × Text))
    → Lacks 10 p
    → IsCut 10 y o
    → lines_of (p ++ y) ≡ shape p y o
lines_of-shape p y none h k = lines_of-partial (p ++ y) (Lacks-append 10 p y h k)
lines_of-shape p y (some (before, rest)) h k =
    ap (λ t. lines_of (p ++ t)) k.1 ∙ lines_of-cut p before rest h k.0

short_shape : (p y : Text) (o : Option (Text × Text)) → IsShort (shape p y o) → length p ≤ runaway
short_shape p y none h = omega (arith, h.1, length-append p y)
short_shape p y (some (before, rest)) h = omega (arith, h.0.0, length-append p before)

partial_short : (p y : Text) → Lacks 10 p → IsShort (lines_of (p ++ y)) → length p ≤ runaway
partial_short p y h short =
    short_shape p y (cut_at 10 y)
      (IsShort-along _ _ (lines_of-shape p y (cut_at 10 y) h (cut_at-IsCut 10 y)) short)

All-split : (P : Text → Type 0) (xs ys : List Text) → All P (xs ++ ys) → All P xs × All P ys
All-split P [] ys h = (tt, h)
All-split P (x ∷ xs) ys h = let (a, b) = All-split P xs ys h.1 in ((h.0, a), b)

split-IsShort :
    (r : List Text × Text) (y : Text)
    → Lacks 10 r.1
    → IsShort (join_lines r y)
    → IsShort r × IsShort (lines_of (r.1 ++ y))
split-IsShort (ls, q) y h short =
    let (a, b) = All-split (λ l. length l ≤ runaway) ls (lines_of (q ++ y)).0 short.0 in
    ((a, partial_short q y h (b, short.1)), (b, short.1))

module _ {ℓ} {S : Type ℓ} (mine : S → Text → S) where
  whole_line-append : (p before : Text) → whole_line p before ≡ p ++ before
  whole_line-append [] before = refl
  whole_line-append (c ∷ p) before = refl

  -- One round of the loop, over the rest of it.
  round :
      (fuel : ℕ) (s : S) (p chunk : Text) (o : Option (Text × Text))
      → IsCut 10 chunk o
      → IsShort (shape p chunk o)
      → ((s' : S) (rest : Text)
          → length rest < length chunk
          → IsShort (lines_of rest)
          → read_chunk mine fuel s' [] rest ≡ after mine s' (lines_of rest))
      → (elim o [
        | none ↦ keep_partial mine s (p ++ chunk)
        | some (before, rest) ↦ read_chunk mine fuel (mine s (whole_line p before)) [] rest
      ])
        ≡ after mine s (shape p chunk o)
  round fuel s p chunk none k short later =
      if_false (ltb runaway (length (p ++ chunk))) _ _ (ground (arith, short.1))
  round fuel s p chunk (some (before, rest)) k short later =
      ap (λ l. read_chunk mine fuel (mine s l) [] rest) (whole_line-append p before)
      ∙ later (mine s (p ++ before)) rest
          (omega (arith, ap length k.1, length-append before (10 ∷ rest))) (short.0.1, short.1)

  read_chunk-lines_of :
      (fuel : ℕ) (s : S) (p chunk : Text)
      → length chunk < fuel
      → Lacks 10 p
      → IsShort (lines_of (p ++ chunk))
      → read_chunk mine fuel s p chunk ≡ after mine s (lines_of (p ++ chunk))
  unfolding read_chunk
  read_chunk-lines_of zero s p chunk l h short = absurd (omega arith)
  read_chunk-lines_of (suc fuel) s p chunk l h short =
      let o = cut_at 10 chunk in
      let cut : IsCut 10 chunk o = cut_at-IsCut 10 chunk in
      let e : lines_of (p ++ chunk) ≡ shape p chunk o = lines_of-shape p chunk o h cut in
      let sh : IsShort (shape p chunk o) = IsShort-along _ _ e short in
      round fuel s p chunk o cut sh
        (λ s' rest shorter sr. read_chunk-lines_of fuel s' [] rest (omega arith) tt sr)
      ∙ ap (after mine s) (sym e)

  -- `read` of chunks that end no line longer than 1 MiB, and have at most 8 MiB: `line` is called
  -- with the lines of the whole text in their order, whatever way the file is cut into chunks, and
  -- what stands behind the last line feed is kept.
  pub read-lines_of :
      (chunks : List Text) (total : ℕ) (s : S) (p : Text)
      → Lacks 10 p
      → All (λ c. 0 < length c) chunks
      → total + length (concat chunks) ≤ read_limit
      → IsShort (lines_of (p ++ concat chunks))
      → read mine total s p chunks ≡ after mine s (lines_of (p ++ concat chunks))
  unfolding read
  read-lines_of [] total s p h n l short =
      ap (after mine s) (sym (ap lines_of (append-nil p) ∙ lines_of-partial p h))
  read-lines_of ([] ∷ chunks) total s p h n l short = absurd (omega (arith, n.0))
  read-lines_of ((c ∷ chunk) ∷ chunks) total s p h n l short =
      let d = c ∷ chunk in
      let y = concat chunks in
      let r = lines_of (p ++ d) in
      let e : lines_of (p ++ (d ++ y)) ≡ join_lines r y =
        ap lines_of (sym (append_assoc p d y)) ∙ lines_of-append (p ++ d) y in
      let parts = split-IsShort r y (lines_of-Lacks (p ++ d)) (IsShort-along _ _ e short) in
      if_true (ltb total read_limit) _ _ (ground (arith, l))
      ∙ ap (λ st. read mine (total + length d) st.0 st.1 chunks)
          (read_chunk-lines_of (suc (length d)) s p d (omega arith) h parts.0)
      ∙ read-lines_of chunks (total + length d) (foldl mine s r.0) r.1 (lines_of-Lacks (p ++ d)) n.1
          (omega (arith, length-append d y)) parts.1
      ∙ ap (λ s'. (s', (lines_of (r.1 ++ y)).1))
          (sym (foldl-append mine s r.0 (lines_of (r.1 ++ y)).0))
      ∙ ap (after mine s) (sym e)
