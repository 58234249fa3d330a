-- ===== src/Drain/Uses.antt =====
-- drain.go: the list of the clusters' use, counted.
use self_hosted_anomaly_dete.Common.{
  ℕ, ◌+◌, ◌-◌, ◌≤◌, ◌<◌, ◌≡◌, ◌≢◌, Option, none, some, List, [], ◌∷◌, arith, ltb, ◌==◌,
  if◌then◌else◌, length,
}
use mathlib.Core.List.{get_last?}
use self_hosted_anomaly_dete.Common.Keys.{nat_eq, lookup, delete}
use self_hosted_anomaly_dete.Drain.{remove, touch}

abbrev pub count : ℕ → List ℕ → ℕ
count id [] = 0
count id (x ∷ xs) = (if x == id then 1 else 0) + count id xs

abbrev pub present {ℓ} : {A : Type ℓ} → Option A → ℕ
present none = 0
present (some a) = 1

-- The list of use holds the id of every cluster once, and no other; an id is at most the last one
-- given.
pub count-remove :
    (id j : ℕ) (xs : List ℕ)
    → count j (remove id xs) ≡ (if id == j then count j xs - 1 else count j xs)
unfolding remove
count-remove id j [] = ground arith
count-remove id j (x ∷ xs) = ground (arith, count-remove id j xs)

pub count-touch :
    (id j : ℕ) (xs : List ℕ)
    → count id xs ≤ 1
    → count j (touch id xs) ≡ (if id == j then 1 else count j xs)
unfolding touch
count-touch id j [] h = ground arith
count-touch id j (x ∷ xs) h = ground (arith, count-remove id j (x ∷ xs))

pub length-remove :
    (id : ℕ) (xs : List ℕ)
    → length (remove id xs) + (if ltb 0 (count id xs) then 1 else 0) ≡ length xs
unfolding remove
length-remove id [] = omega arith
length-remove id (x ∷ xs) = ground (arith, length-remove id xs)

pub length-touch :
    (id : ℕ) (xs : List ℕ) → count id xs ≤ 1 → length (touch id xs) + count id xs ≡ length xs + 1
unfolding touch
length-touch id [] h = omega arith
length-touch id (x ∷ xs) h = ground (arith, length-remove id (x ∷ xs))

pub length-delete :
    {V : Type 0} (id : ℕ) (m : List (ℕ × V))
    → length (delete id m) + present (lookup id m) ≡ length m
length-delete id [] = omega arith
length-delete id ((k, v) ∷ m) = ground (arith, length-delete id m)

pub count-last : (xs : List ℕ) (id : ℕ) → get_last? xs ≡ some id → 0 < count id xs
count-last [] id e = absurd (ground arith)
count-last (x ∷ []) id e = ground arith
count-last (x ∷ y ∷ xs) id e = omega (arith, count-last (y ∷ xs) id e)

pub last-ne-none : (xs : List ℕ) → 0 < length xs → get_last? xs ≢ none
last-ne-none [] h e = absurd (omega arith)
last-ne-none (x ∷ []) h e = cc
last-ne-none (x ∷ y ∷ xs) h e = last-ne-none (y ∷ xs) (omega arith) e
