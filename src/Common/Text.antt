-- ===== src/Common/Text.antt =====
-- Text literals as their bytes, and the functions of Go's `strings` on ASCII text that several
-- parts of the program call.
use Prim.Native.Nat.{ℕ, ◌+◌}
use Prim.Native.Char.{code}
use Prim.Native.String.{String}
use mathlib.Core.Bool.{Bool, false, ◌&&◌, ◌||◌}
use mathlib.Core.Option.{Option, none, some}
use mathlib.Core.List.{List, [], ◌∷◌, ◌++◌, map}
use mathlib.Core.Path.{◌≡◌, refl, ap}
use native.Mathlib.Omega.{arith}
use self_hosted_anomaly_dete.Common.Tests.{leb, ◌==◌, if◌then◌else◌, if_cases, ==_iff}

abbrev pub Text : Type 0
Text = List ℕ

abbrev pub bytes : String → List ℕ
bytes String.[] = []
bytes (String.◌∷◌ c s) = code c ∷ bytes s

abbrev pub lower : ℕ → ℕ
lower c = if leb b'A' c && leb c b'Z' then c + 32 else c

-- `strings.ToLower`
abbrev pub to_lower : List ℕ → List ℕ
to_lower = map lower

-- `strings.IndexByte(s, c)`: what stands before the first `c` and after it.
abbrev pub cut_at : ℕ → List ℕ → Option (List ℕ × List ℕ)
cut_at c [] = none
cut_at c (x ∷ xs) =
    if x == c
    then some ([], xs)
    else elim (cut_at c xs) [ none ↦ none | some (before, after) ↦ some (x ∷ before, after) ]

-- What is left after a prefix.
abbrev pub cut_prefix : List ℕ → List ℕ → Option (List ℕ)
cut_prefix [] s = some s
cut_prefix (p ∷ ps) [] = none
cut_prefix (p ∷ ps) (c ∷ s) = if c == p then cut_prefix ps s else none

-- `strings.TrimLeft` and `strings.TrimRight`, of the bytes that pass a test.
abbrev pub trim_left : (ℕ → Bool) → List ℕ → List ℕ
trim_left p [] = []
trim_left p (c ∷ s) = if p c then trim_left p s else c ∷ s

abbrev pub trim_right : (ℕ → Bool) → List ℕ → List ℕ
trim_right p [] = []
trim_right p (c ∷ s) = elim (trim_right p s) [ [] ↦ if p c then [] else c ∷ [] | d ∷ t ↦ c ∷ d ∷ t ]

-- The white space of `strings.Fields`.
abbrev pub is_white : ℕ → Bool
is_white c = c == 32 || c == 9 || c == 10 || c == 11 || c == 12 || c == 13

abbrev pub push_word : List ℕ → List (List ℕ) → List (List ℕ)
push_word [] ws = ws
push_word (c ∷ w) ws = (c ∷ w) ∷ ws

-- The word that a text begins with, which may be empty, and the words after it.
abbrev pub split_words : List ℕ → List ℕ × List (List ℕ)
split_words [] = ([], [])
split_words (c ∷ s) =
    let (w, ws) = split_words s in if is_white c then ([], push_word w ws) else (c ∷ w, ws)

-- `strings.Fields`
unfoldable pub fields : List ℕ → List (List ℕ)
fields s = let (w, ws) = split_words s in push_word w ws

-- The first `c` is the one written, where none stands before it.
abbrev pub Lacks : ℕ → List ℕ → Type 0
Lacks c [] = Unit
Lacks c (x ∷ xs) = ((x == c) ≡ false) × Lacks c xs

pub cut_at-append :
    (c : ℕ) (xs rest : List ℕ) → Lacks c xs → cut_at c (xs ++ (c ∷ rest)) ≡ some (xs, rest)
cut_at-append c [] rest h = ground arith
cut_at-append c (x ∷ xs) rest h = rw (h.0, cut_at-append c xs rest h.1) refl

pub cut_prefix-append : (p s : List ℕ) → cut_prefix p (p ++ s) ≡ some s
cut_prefix-append [] s = refl
cut_prefix-append (c ∷ p) s = ground (arith, cut_prefix-append p s)

-- What `cut_at` answers of a text.
abbrev pub IsCut : ℕ → List ℕ → Option (List ℕ × List ℕ) → Type 0
IsCut c xs none = Lacks c xs
IsCut c xs (some (before, after)) = Lacks c before × (xs ≡ before ++ (c ∷ after))

IsCut-at_round :
    (c x : ℕ) (xs : List ℕ) (o : Option (List ℕ × List ℕ))
    → IsCut c xs o
    → IsCut c (x ∷ xs) (
        if x == c
        then some ([], xs)
        else elim o [ none ↦ none | some (before, after) ↦ some (x ∷ before, after) ])
IsCut-at_round c x xs none h =
    if_cases (IsCut c (x ∷ xs)) (x == c) (λ e. (tt, ap (λ d. d ∷ xs) ((==_iff x c).0 e)))
      (λ e. (e, h))
IsCut-at_round c x xs (some (before, after)) h =
    if_cases (IsCut c (x ∷ xs)) (x == c) (λ e. (tt, ap (λ d. d ∷ xs) ((==_iff x c).0 e)))
      (λ e. ((e, h.0), ap (◌∷◌ x) h.1))

pub cut_at-IsCut : (c : ℕ) (xs : List ℕ) → IsCut c xs (cut_at c xs)
cut_at-IsCut c [] = tt
cut_at-IsCut c (x ∷ xs) = IsCut-at_round c x xs (cut_at c xs) (cut_at-IsCut c xs)
