-- ===== src/Promrw/Walk.antt =====
-- promrw.go: the loops over fields, on what `appendBytes` writes.
use self_hosted_anomaly_dete.Common.{
  ℕ, zero, suc, ◌+◌, ◌*◌, ◌/◌, ◌≤◌, ◌<◌, ◌≡◌, refl, sym, ap, ◌∙◌, List, [], ◌∷◌, ◌++◌, arith,
  length, length-append, take, drop, All, take-append_length, drop-append_length,
}
use mathlib.Core.List.{foldl, append_assoc, append-nil}
use self_hosted_anomaly_dete.Promrw.{
  Bytes, Result, ok, walk, append_uvarint, le_bytes, uvarint_bytes,
}
use self_hosted_anomaly_dete.Promrw.Encode.{append_bytes}
use self_hosted_anomaly_dete.Promrw.Uvarint.{append_bytes_parts, length-le_bytes}

abbrev pub parts {ℓ} : {A : Type ℓ} → (A → Bytes) → List A → Bytes
parts f [] = []
parts f (x ∷ xs) = f x ++ parts f xs

pub foldl-parts {ℓ} :
    {A : Type ℓ} (f : A → Bytes) (g : Bytes → A → Bytes)
    → ((b : Bytes) (a : A) → g b a ≡ b ++ f a)
    → (b : Bytes) (xs : List A) → foldl g b xs ≡ b ++ parts f xs
foldl-parts f g h b [] = sym (append-nil b)
foldl-parts f g h b (x ∷ xs) = foldl-parts f g h (g b x) xs ∙ rw (h b x, append_assoc)

walk_step {ℓ} :
    {S : Type ℓ} (field : S → Bytes → Result (S × Bytes)) (fuel : ℕ) (bs : Bytes) (s s' : S)
    (rest : Bytes)
    → length rest < length bs
    → field s bs ≡ ok (s', rest)
    → walk field (suc fuel) bs s ≡ walk field fuel rest s'
unfolding walk
walk_step field fuel [] s s' rest h e = absurd (omega arith)
walk_step field fuel (b ∷ bs) s s' rest h e = rw e

pub uvarint_longer : (v : ℕ) (rest : Bytes) → length rest < length (append_uvarint [] v ++ rest)
unfolding append_uvarint uvarint_bytes
uvarint_longer v rest = ground (arith, length-append (uvarint_bytes 8 (v / 128)) rest)

pub length-uvarint_bytes : (k v : ℕ) → length (uvarint_bytes k v) ≤ k + 1
unfolding uvarint_bytes
length-uvarint_bytes zero v = omega arith
length-uvarint_bytes (suc k) v = ground (arith, length-uvarint_bytes k (v / 128))

-- Two fields, and the end.
pub walk_two {ℓ} :
    {S : Type ℓ} (field : S → Bytes → Result (S × Bytes)) (bs rest : Bytes) (s t u : S)
    → length rest < length bs
    → 0 < length rest
    → field s bs ≡ ok (t, rest)
    → field t rest ≡ ok (u, [])
    → walk field (length bs) bs s ≡ ok u
unfolding walk
walk_two field [] rest s t u h k e e' = absurd (omega arith)
walk_two field (b ∷ bs) [] s t u h k e e' = absurd (omega arith)
walk_two field (b ∷ []) (c ∷ cs) s t u h k e e' = absurd (omega arith)
walk_two field (b ∷ d ∷ bs) (c ∷ cs) s t u h k e e' = rw e (rw e')

-- A loop over what `f` wrote for each item takes the items one by one.
pub walk-parts {ℓ κ} :
    {A : Type ℓ} {S : Type κ} (P : A → Type 0) (f : A → Bytes) (add : S → A → S)
    (field : S → Bytes → Result (S × Bytes))
    → ((s : S) (a : A) (rest : Bytes)
        → P a
        → (length rest < length (f a ++ rest)) × (field s (f a ++ rest) ≡ ok (add s a, rest)))
    → (xs : List A) (fuel : ℕ) (tail : Bytes) (s : S) → All P xs
    → length (parts f xs ++ tail) ≤ fuel
    → (left : ℕ) × (length tail ≤ left)
      × (walk field fuel (parts f xs ++ tail) s ≡ walk field left tail (foldl add s xs))
walk-parts P f add field one [] fuel tail s ps h = (fuel, h, refl)
walk-parts P f add field one (x ∷ xs) zero tail s ps h = absurd (
    omega (
      arith,
      (one s x (parts f xs ++ tail) ps.0).0,
      ap length (append_assoc (f x) (parts f xs) tail),
    ))
walk-parts P f add field one (x ∷ xs) (suc fuel) tail s ps h =
    let rest : Bytes = parts f xs ++ tail in
    let (shorter, e) = one s x rest ps.0 in
    let room : length rest ≤ fuel =
      omega (arith, shorter, ap length (append_assoc (f x) (parts f xs) tail)) in
    let (left, fits, e') = walk-parts P f add field one xs fuel tail (add s x) ps.1 room in
    let first : walk field (suc fuel) (f x ++ rest) s ≡ walk field fuel rest (add s x) =
      walk_step field fuel (f x ++ rest) s (add s x) rest shorter e in
    let whole : parts f (x ∷ xs) ++ tail ≡ f x ++ rest = append_assoc (f x) (parts f xs) tail in
    (left, fits, ap (λ bs. walk field (suc fuel) bs s) whole ∙ first ∙ e')

pub append_bytes_longer :
    (field : ℕ) (v rest : Bytes) → length v + length rest < length (append_bytes [] field v ++ rest)
append_bytes_longer field v rest = rw (append_bytes_parts field v rest) (
    omega (
      arith,
      uvarint_longer (field * 8 + 2) (append_uvarint [] (length v) ++ (v ++ rest)),
      length-append (append_uvarint [] (length v)) (v ++ rest),
      length-append v rest,
    ))

pub append_bytes_positive : (field : ℕ) (v : Bytes) → 0 < length (append_bytes [] field v ++ [])
append_bytes_positive field v = omega (arith, append_bytes_longer field v [])

pub take_8 : (v : ℕ) (rest : Bytes) → take 8 (le_bytes 8 v ++ rest) ≡ le_bytes 8 v
take_8 v rest = rw (length-le_bytes 8 v) at (take-append_length (le_bytes 8 v) rest)

pub drop_8 : (v : ℕ) (rest : Bytes) → drop 8 (le_bytes 8 v ++ rest) ≡ rest
drop_8 v rest = rw (length-le_bytes 8 v) at (drop-append_length (le_bytes 8 v) rest)
