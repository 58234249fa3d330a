-- ===== src/Logparse/Total.antt =====
-- logparse.go: the extractor ends on every line, and reads on.
use self_hosted_anomaly_dete.Common.{
  ℕ, zero, suc, ◌+◌, ◌≤◌, ◌<◌, Bool, true, false, ◌&&◌, ◌||◌, Option, none, some, List, [], ◌∷◌,
  ◌==◌, if◌then◌else◌, length, arith, if_both,
}
use self_hosted_anomaly_dete.Common.Text.{Text}
use self_hosted_anomaly_dete.Logparse.{
  Parsed, parsed, malformed, out_of_fuel, ◌>>=◌, is_ws, skip_ws, scan, descend, extend, content,
  str, skip_value, member, colon, object, extract_from,
}

-- A result that is one, or a refusal; a result leaves less than `n`, as `left` measures it.
abbrev pub Leaves {ℓ} : {A : Type ℓ} → (A → ℕ) → ℕ → Parsed A → Type 0
Leaves left n (parsed a) = left a < n
Leaves left n malformed = Unit
Leaves left n out_of_fuel = ⊥

Leaves-bind :
    {A B : Type 0} (left : A → ℕ) (left' : B → ℕ) (n k : ℕ) (m : Parsed A) (f : A → Parsed B)
    → Leaves left n m
    → ((a : A) → left a < n → Leaves left' k (f a))
    → Leaves left' k (m >>= f)
Leaves-bind left left' n k (parsed a) f h g = g a h
Leaves-bind left left' n k malformed f h g = tt
Leaves-bind left left' n k out_of_fuel f h g = h

Leaves-more :
    {A : Type 0} (left : A → ℕ) (n k : ℕ) (m : Parsed A) → n ≤ k → Leaves left n m → Leaves left k m
Leaves-more left n k (parsed a) h l = omega (arith, l)
Leaves-more left n k malformed h l = tt
Leaves-more left n k out_of_fuel h l = l

abbrev pub after : {A : Type 0} → A × Text → ℕ
after r = length r.1

abbrev after_scan : Text × Bool × Text → ℕ
after_scan r = length r.2

length-skip_ws-le : (s : Text) → length (skip_ws s) ≤ length s
unfolding skip_ws
length-skip_ws-le [] = omega arith
length-skip_ws-le (c ∷ s) = ground (arith, length-skip_ws-le s)

scan-Leaves : (s : Text) → Leaves after_scan (length s) (scan s)
unfolding scan
scan-Leaves [] = tt
scan-Leaves (c ∷ []) = if_both (Leaves after_scan 1) (c == b'"') (omega arith) tt
scan-Leaves (c ∷ d ∷ s) =
    if_both (Leaves after_scan (length (c ∷ d ∷ s))) (c == b'\\')
      (Leaves-bind after_scan after_scan (length s) (length (c ∷ d ∷ s)) (scan s) _ (scan-Leaves s)
        (λ a h. omega arith))
      (if_both (Leaves after_scan (length (c ∷ d ∷ s))) (c == b'"') (omega arith) (
        Leaves-bind after_scan after_scan (length (d ∷ s)) (length (c ∷ d ∷ s)) (scan (d ∷ s)) _
          (scan-Leaves (d ∷ s)) (λ a h. omega arith)))

module _ (unquote : Text → Option Text) where
  content-Leaves :
      (n : ℕ) (r : Text × Bool × Text) → after_scan r < n → Leaves after n (content unquote r)
  content-Leaves n (raw, false, rest) h = h
  content-Leaves n (raw, true, rest) h = go (unquote raw)
    where
      go :
          (o : Option Text)
          → Leaves after n (elim o [ none ↦ malformed | some v ↦ parsed (v, rest) ])
      go none = tt
      go (some v) = h

  str-Leaves : (s : Text) → Leaves after (length s) (str unquote s)
  unfolding str
  str-Leaves [] = tt
  str-Leaves (c ∷ s) =
      if_both (Leaves after (suc (length s))) (c == b'"')
        (Leaves-bind after_scan after (length s) (suc (length s)) (scan s) _ (scan-Leaves s)
          (λ r h. content-Leaves (suc (length s)) r (omega arith)))
        tt

  abbrev whole : Text → ℕ
  whole = length

  skip_value-Leaves :
      (fuel depth : ℕ) (s : Text)
      → length s ≤ fuel
      → Leaves whole (suc (length s)) (skip_value unquote fuel depth s)
  unfolding skip_value
  skip_value-Leaves fuel zero [] h = omega arith
  skip_value-Leaves fuel (suc depth) [] h = tt
  skip_value-Leaves zero depth (c ∷ s) h = absurd (omega arith)
  skip_value-Leaves (suc fuel) zero (c ∷ s) h =
      let n = suc (suc (length s)) in
      let P : Parsed Text → Type 0 = Leaves whole n in
      if_both P (c == b'"')
        (Leaves-bind after whole (suc (length s)) n (str unquote (c ∷ s)) _ (str-Leaves (c ∷ s))
          (λ r k. omega arith))
        (if_both P (c == b'{' || c == b'[')
          (Leaves-more whole (suc (length s)) n _ (omega arith)
            (skip_value-Leaves fuel 1 s (omega arith)))
          (if_both P (c == b'}' || c == b']' || c == b',' || is_ws c) (omega arith) (
            Leaves-more whole (suc (length s)) n _ (omega arith)
              (skip_value-Leaves fuel 0 s (omega arith)))))
  skip_value-Leaves (suc fuel) (suc depth) (c ∷ s) h =
      let n = suc (suc (length s)) in
      let P : Parsed Text → Type 0 = Leaves whole n in
      if_both P (c == b'"')
        (Leaves-bind after whole (suc (length s)) n (str unquote (c ∷ s)) _ (str-Leaves (c ∷ s))
          (λ r k.
            Leaves-more whole (suc (length r.1)) n _ (omega arith)
              (skip_value-Leaves fuel (suc depth) r.1 (omega arith))))
        (if_both P (c == b'{' || c == b'[')
          (Leaves-more whole (suc (length s)) n _ (omega arith)
            (skip_value-Leaves fuel (suc (suc depth)) s (omega arith)))
          (if_both P (c == b'}' || c == b']')
            (if_both P (depth == 0) (omega arith) (
              Leaves-more whole (suc (length s)) n _ (omega arith)
                (skip_value-Leaves fuel depth s (omega arith))))
            (Leaves-more whole (suc (length s)) n _ (omega arith)
              (skip_value-Leaves fuel (suc depth) s (omega arith)))))

  module _ (paths : List Text) where
    member-Leaves :
        (inner : Text → List Text → Text → Parsed (List Text × Text)) (path : Text)
        (out : List Text) (s : Text)
        → ((p : Text) (o : List Text) (t : Text)
            → length t < length s
            → Leaves after (suc (length t)) (inner p o t))
        → Leaves after (suc (length s)) (member unquote paths inner (length s) path out s)
    unfolding member
    member-Leaves inner path out [] g = tt
    member-Leaves inner path out (c ∷ s) g =
        let n = suc (suc (length s)) in
        let P : Parsed (List Text × Text) → Type 0 = Leaves after n in
        if_both P (c == b'"')
          (Leaves-bind after after (suc (length s)) n (str unquote (c ∷ s)) _ (str-Leaves (c ∷ s))
            (λ r k. omega arith))
          (if_both P (c == b'{' && descend paths path)
            (Leaves-more after (suc (length s)) n _ (omega arith) (g path out s (omega arith)))
            (Leaves-bind whole after n n (skip_value unquote (suc (length s)) 0 (c ∷ s)) _
              (skip_value-Leaves (suc (length s)) 0 (c ∷ s) (omega arith)) (λ rest k. k)))

    colon-Leaves : (s : Text) → Leaves whole (length s) (colon unquote paths s)
    colon-Leaves [] = tt
    colon-Leaves (c ∷ s) =
        if_both (Leaves whole (suc (length s))) (c == b':') (omega (arith, length-skip_ws-le s)) tt

    -- One round of `object`, over the rest of it.
    object_round-Leaves :
        (fuel : ℕ)
        → ((p : Text) (o : List Text) (t : Text)
            → length t < fuel
            → Leaves after (suc (length t)) (object unquote paths fuel p o t))
        → (prefix : Text) (out : List Text) (s : Text) → length s < suc fuel
        → Leaves after (suc (length s)) (object unquote paths (suc fuel) prefix out s)
    unfolding object
    object_round-Leaves fuel rest prefix out s h = go (skip_ws s) (length-skip_ws-le s)
      where
        n : ℕ
        n = suc (length s)

        next :
            (p : Text) (o : List Text) (t : Text)
            → length t < fuel
            → length t ≤ length s
            → Leaves after n (object unquote paths fuel p o t)
        next p o t k l = Leaves-more after (suc (length t)) n _ (omega arith) (rest p o t k)

        inner :
            (v : Text)
            → length v ≤ fuel
            → (p : Text) (o : List Text) (t : Text) → length t < length v
            → Leaves after (suc (length t)) (object unquote paths fuel p o t)
        inner v k p o t l = rest p o t (omega arith)

        at_brace : Text → Parsed (List Text × Text)
        at_brace [] = malformed
        at_brace (c ∷ t) =
            let field = str unquote (c ∷ t) >>= λ r. colon unquote paths (skip_ws r.1) >>= λ v.
            member unquote paths (object unquote paths fuel) (length v) (extend prefix r.0) out v
            >>= λ a. object unquote paths fuel prefix a.0 a.1 in
            let again = object unquote paths fuel prefix out t in
            if c == b'}' then parsed (out, t) else if c == b',' then again else field

        go : (t : Text) → length t ≤ length s → Leaves after n (at_brace t)
        go [] k = tt
        go (c ∷ t) k = if_both (Leaves after n) (c == b'}') (omega arith) (
            if_both (Leaves after n) (c == b',') (next prefix out t (omega arith) (omega arith)) (
              Leaves-bind after after (suc (length t)) n (str unquote (c ∷ t)) _
                (str-Leaves (c ∷ t))
                (λ r lr.
                  Leaves-bind whole after (length (skip_ws r.1)) n
                    (colon unquote paths (skip_ws r.1)) _ (colon-Leaves (skip_ws r.1))
                    (λ v lv.
                      Leaves-bind after after (suc (length v)) n _ _
                        (member-Leaves (object unquote paths fuel) (extend prefix r.0) out v
                          (inner v (omega (arith, length-skip_ws-le r.1))))
                        (λ a la.
                          next prefix a.0 a.1 (omega (arith, length-skip_ws-le r.1))
                            (omega (arith, length-skip_ws-le r.1)))))))

    object-Leaves :
        (fuel : ℕ) (prefix : Text) (out : List Text) (s : Text)
        → length s < fuel
        → Leaves after (suc (length s)) (object unquote paths fuel prefix out s)
    object-Leaves zero prefix out s h = absurd (omega arith)
    object-Leaves (suc fuel) prefix out s h =
        object_round-Leaves fuel (λ p o t k. object-Leaves fuel p o t k) prefix out s h

    -- On every line, JSON or not, and for every way to decode an escaped string, `Extract` ends:
    -- the object is read, and what follows it is shorter than the line, or the line is refused.
    pub extract_from-Leaves :
        (line : Text) → Leaves after (suc (length line)) (extract_from unquote paths (skip_ws line))
    extract_from-Leaves line = go (skip_ws line) (length-skip_ws-le line)
      where
        go :
            (t : Text)
            → length t ≤ length line
            → Leaves after (suc (length line)) (extract_from unquote paths t)
        go [] k = tt
        go (c ∷ t) k =
            if_both (Leaves after (suc (length line))) (c == b'{')
              (Leaves-more after (suc (length t)) (suc (length line)) _ (omega arith)
                (object-Leaves (length t + 1) [] _ t (omega arith)))
              tt
