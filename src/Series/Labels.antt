-- ===== src/Series/Labels.antt =====
-- store.go, `Labels`: the value of a label, and the key of a series. Strings are their bytes.
use self_hosted_anomaly_dete.Common.{
  ℕ, ◌≤◌, ◌<◌, ◌≡◌, refl, ap, List, [], ◌∷◌, ◌++◌, arith, length, length-append, All, if◌then◌else◌,
}
use self_hosted_anomaly_dete.Common.Keys.{nat_eq, list_beq}
use self_hosted_anomaly_dete.Series.{Label}

-- `Get`
unfoldable pub get_value : List Label → List ℕ → List ℕ
get_value [] name = []
get_value (l ∷ ls) name =
    let later = get_value ls name in if list_beq l.name name then l.value else later

-- `Key`
unfoldable pub key_of : List Label → List ℕ
key_of [] = []
key_of (l ∷ ls) = l.name ++ (0xfe ∷ (l.value ++ (0xff ∷ key_of ls)))

-- UTF-8 text has no byte as large as the two marks.
abbrev pub IsText : List ℕ → Type 0
IsText s = All (λ c. c < 0xfe) s

abbrev pub IsPlain : Label → Type 0
IsPlain l = IsText l.name × IsText l.value

mark_ends :
    (xs ys : List ℕ) (mark : ℕ) (r r' : List ℕ)
    → 0xfe ≤ mark
    → IsText xs
    → IsText ys
    → xs ++ (mark ∷ r) ≡ ys ++ (mark ∷ r')
    → (xs ≡ ys) × (r ≡ r')
mark_ends [] [] mark r r' m h k e = ground arith
mark_ends [] (y ∷ ys) mark r r' m h k e = absurd (ground arith)
mark_ends (x ∷ xs) [] mark r r' m h k e = absurd (ground arith)
mark_ends (x ∷ xs) (y ∷ ys) mark r r' m h k e = ground (arith, mark_ends xs ys mark r r' m h.1 k.1)

-- Two lists of labels whose names and values are UTF-8 text have the same `Key` only if they are
-- the same.
pub key_of-injective :
    (ls ms : List Label) → All IsPlain ls → All IsPlain ms → key_of ls ≡ key_of ms → ls ≡ ms
unfolding key_of
key_of-injective [] [] h k e = refl
key_of-injective [] (m ∷ ms) h k e =
    absurd
      (omega (arith, ap length e, length-append m.name (0xfe ∷ (m.value ++ (0xff ∷ key_of ms)))))
key_of-injective (l ∷ ls) [] h k e =
    absurd
      (omega (arith, ap length e, length-append l.name (0xfe ∷ (l.value ++ (0xff ∷ key_of ls)))))
key_of-injective (l ∷ ls) (m ∷ ms) h k e =
    let (names, rest) = mark_ends l.name m.name 0xfe _ _ (omega arith) h.0.0 k.0.0 e in
    let (values, others) = mark_ends l.value m.value 0xff _ _ (omega arith) h.0.1 k.0.1 rest in
    ground (arith, names, values, key_of-injective ls ms h.1 k.1 others)
