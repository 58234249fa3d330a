-- ===== src/Promrw/Total.antt =====
-- promrw.go: the loops of the reader end on every input.
use self_hosted_anomaly_dete.Common.{
  ℕ, zero, suc, ◌≤◌, ◌<◌, ◌≡◌, refl, none, some, [], ◌∷◌, arith, length, length-drop, Option-cases,
  ◌==◌, if_both, inl, inr, ◌&&◌, ltb,
}
use self_hosted_anomaly_dete.Promrw.{
  Bytes, Error, Result, ok, err, out_of_fuel, ◌>>=◌, TimeSeries, Label, Sample, uvarint,
  skip_varint, skip_fixed, skip_bytes, value_field, timestamp_field, set_label, no_series, tag,
  bytes_field, skip, walk, label_field, sample_field, series_message, series_field, decode_label,
  decode_sample, decode_series, request_field, no_label, no_sample,
}
use self_hosted_anomaly_dete.Promrw.Uvarint.{uvarint_takes, tag_takes, bytes_field_takes}

abbrev pub IsGoError : Error → Type 0
IsGoError out_of_fuel = ⊥
IsGoError _ = Unit

-- The answer is a value or an error of the source.
abbrev pub IsDefinite {ℓ} : {A : Type ℓ} → Result A → Type 0
IsDefinite (ok a) = Unit
IsDefinite (err e) = IsGoError e

-- It is, and a value leaves fewer than `n` bytes.
abbrev pub Progress {ℓ} : {A : Type ℓ} → ℕ → Result (A × Bytes) → Type 0
Progress n (ok p) = length p.1 < n
Progress n (err e) = IsGoError e

bind-Progress {ℓ κ} :
    {A : Type ℓ} {B : Type κ} (n : ℕ) (m : Result A) (f : A → Result (B × Bytes))
    → IsDefinite m
    → ((a : A) → m ≡ ok a → Progress n (f a))
    → Progress n (m >>= f)
bind-Progress n (ok a) f d h = h a refl
bind-Progress n (err e) f d h = d

bind-IsDefinite {ℓ κ} :
    {A : Type ℓ} {B : Type κ} (m : Result A) (f : A → Result B)
    → IsDefinite m
    → ((a : A) → IsDefinite (f a))
    → IsDefinite (m >>= f)
bind-IsDefinite (ok a) f d h = h a
bind-IsDefinite (err e) f d h = d

-- It is, and a value is at most `n` bytes long.
abbrev Shorter : ℕ → Result Bytes → Type 0
Shorter n (ok rest) = length rest ≤ n
Shorter n (err e) = IsGoError e

tag-IsDefinite : (bs : Bytes) → IsDefinite (tag bs)
unfolding tag
tag-IsDefinite bs = ground arith

pub bytes_field-IsDefinite : (bs : Bytes) → IsDefinite (bytes_field bs)
unfolding bytes_field
bytes_field-IsDefinite bs = ground arith

skip_varint-Shorter : (bs : Bytes) → Shorter (length bs) (skip_varint bs)
unfolding skip_varint
skip_varint-Shorter bs = elim (Option-cases (uvarint bs)) [
  | inl e ↦ ground arith
  | inr ((v, rest), e) ↦ ground (arith, uvarint_takes bs v rest e)
]

skip_bytes-Shorter : (bs : Bytes) → Shorter (length bs) (skip_bytes bs)
unfolding bytes_field
skip_bytes-Shorter bs = elim (Option-cases (uvarint bs)) [
  | inl e ↦ ground arith
  | inr ((v, rest), e) ↦ ground (arith, uvarint_takes bs v rest e, length-drop v rest)
]

skip_fixed-Shorter : (k : ℕ) (bs : Bytes) → Shorter (length bs) (skip_fixed k bs)
skip_fixed-Shorter k bs =
    if_both (Shorter (length bs)) (ltb (length bs) k) tt (omega (arith, length-drop k bs))

skip-Shorter : (bs : Bytes) (wt : ℕ) → Shorter (length bs) (skip bs wt)
unfolding skip
skip-Shorter bs wt =
    let P : Result Bytes → Type 0 = Shorter (length bs) in
    if_both P (wt == 0) (skip_varint-Shorter bs) (
      if_both P (wt == 1) (skip_fixed-Shorter 8 bs) (
        if_both P (wt == 2) (skip_bytes-Shorter bs)
          (if_both P (wt == 5) (skip_fixed-Shorter 4 bs) tt)))

-- Reading past a field, with the state left as it is.
skip-Progress {ℓ} :
    {S : Type ℓ} (s : S) (n : ℕ) (bs : Bytes) (wt : ℕ)
    → length bs < n
    → Progress n (skip bs wt >>= λ rest. ok (s, rest))
skip-Progress s n bs wt h = go (skip bs wt) (skip-Shorter bs wt)
  where
    go : (r : Result Bytes) → Shorter (length bs) r → Progress n (r >>= λ rest. ok (s, rest))
    go (ok rest) k = omega arith
    go (err e) k = k

module _ (n : ℕ) where
  -- A message, turned into a new state by `f`.
  message-Progress {ℓ κ} :
      {S : Type ℓ} {T : Type κ} (bs : Bytes) (f : Bytes → Result S) (g : S → T)
      → length bs < n
      → ((msg : Bytes) → IsDefinite (f msg))
      → Progress n (bytes_field bs >>= λ p. f p.0 >>= λ s. ok (g s, p.1))
  message-Progress bs f g h d =
      bind-Progress n (bytes_field bs) (λ p. f p.0 >>= λ s. ok (g s, p.1))
        (bytes_field-IsDefinite bs)
        (λ (msg, rest) e.
          bind-Progress n (f msg) (λ s. ok (g s, rest)) (d msg)
            (λ s q. omega (arith, bytes_field_takes bs msg rest e)))

pub label_field-Progress : (l : Label) (bs : Bytes) → Progress (length bs) (label_field l bs)
unfolding label_field
label_field-Progress l bs =
    bind-Progress (length bs) (tag bs) _ (tag-IsDefinite bs) (λ (field, wt, rest) e.
      if_both (Progress (length bs)) (wt == 2)
        (message-Progress (length bs) rest (λ v. ok v) (λ v. set_label field v l)
          (tag_takes bs field wt rest e) (λ msg. tt))
        (skip-Progress l (length bs) rest wt (tag_takes bs field wt rest e)))

value_field-Progress :
    (s : Sample) (n : ℕ) (bs : Bytes) → length bs < n → Progress n (value_field s bs)
value_field-Progress s n bs h = ground (arith, length-drop 8 bs)

timestamp_field-Progress :
    (s : Sample) (n : ℕ) (bs : Bytes) → length bs < n → Progress n (timestamp_field s bs)
timestamp_field-Progress s n bs h = elim (Option-cases (uvarint bs)) [
  | inl e ↦ ground arith
  | inr ((v, rest), e) ↦ ground (arith, uvarint_takes bs v rest e)
]

pub sample_field-Progress : (s : Sample) (bs : Bytes) → Progress (length bs) (sample_field s bs)
unfolding sample_field
sample_field-Progress s bs =
    bind-Progress (length bs) (tag bs) _ (tag-IsDefinite bs) (λ (field, wt, rest) e.
      let h : length rest < length bs = tag_takes bs field wt rest e in
      if_both (Progress (length bs)) ((field == 1) && (wt == 1))
        (value_field-Progress s (length bs) rest h)
        (if_both (Progress (length bs)) ((field == 2) && (wt == 0))
          (timestamp_field-Progress s (length bs) rest h) (skip-Progress s (length bs) rest wt h)))

-- A loop whose body moves forward ends within the length of its input.
pub walk-IsDefinite {ℓ} :
    {S : Type ℓ} (field : S → Bytes → Result (S × Bytes))
    → ((s : S) (bs : Bytes) → Progress (length bs) (field s bs))
    → (fuel : ℕ) (bs : Bytes) (s : S) → length bs ≤ fuel
    → IsDefinite (walk field fuel bs s)
unfolding walk
walk-IsDefinite field p fuel [] s h = tt
walk-IsDefinite field p zero (b ∷ bs) s h = absurd (omega arith)
walk-IsDefinite {S} field p (suc fuel) (b ∷ bs) s h =
    go (field s (b ∷ bs)) (p s (b ∷ bs)) (λ bs' s'. walk-IsDefinite field p fuel bs' s')
  where
    go :
        (r : Result (S × Bytes))
        → Progress (suc (length bs)) r
        → ((bs' : Bytes) (s' : S) → length bs' ≤ fuel → IsDefinite (walk field fuel bs' s'))
        → IsDefinite (r >>= λ q. walk field fuel q.1 q.0)
    go (ok (s', rest)) k ih = ih rest s' (omega arith)
    go (err e) k ih = k

decode_label-IsDefinite : (bs : Bytes) (l : Label) → IsDefinite (decode_label bs l)
unfolding decode_label
decode_label-IsDefinite bs l =
    walk-IsDefinite label_field label_field-Progress (length bs) bs l (omega arith)

decode_sample-IsDefinite : (bs : Bytes) (s : Sample) → IsDefinite (decode_sample bs s)
unfolding decode_sample
decode_sample-IsDefinite bs s =
    walk-IsDefinite sample_field sample_field-Progress (length bs) bs s (omega arith)

series_message-IsDefinite :
    (field : ℕ) (msg : Bytes) (ts : TimeSeries) → IsDefinite (series_message field msg ts)
unfolding series_message
series_message-IsDefinite field msg ts =
    if_both IsDefinite (field == 1)
      (bind-IsDefinite (decode_label msg no_label) _ (decode_label-IsDefinite msg no_label)
        (λ l. tt))
      (if_both IsDefinite (field == 2)
        (bind-IsDefinite (decode_sample msg no_sample) _ (decode_sample-IsDefinite msg no_sample)
          (λ l. tt))
        tt)

pub series_field-Progress :
    (ts : TimeSeries) (bs : Bytes) → Progress (length bs) (series_field ts bs)
unfolding series_field
series_field-Progress ts bs =
    bind-Progress (length bs) (tag bs) _ (tag-IsDefinite bs) (λ (field, wt, rest) e.
      if_both (Progress (length bs)) (wt == 2)
        (message-Progress (length bs) rest (λ msg. series_message field msg ts) (λ s. s)
          (tag_takes bs field wt rest e) (λ msg. series_message-IsDefinite field msg ts))
        (skip-Progress ts (length bs) rest wt (tag_takes bs field wt rest e)))

-- A series is decoded or refused, on every input.
pub decode_series-IsDefinite : (bs : Bytes) → IsDefinite (decode_series bs)
unfolding decode_series
decode_series-IsDefinite bs =
    walk-IsDefinite series_field series_field-Progress (length bs) bs no_series (omega arith)

pub request_field-Progress : (bs : Bytes) → Progress (length bs) (request_field bs)
unfolding request_field
request_field-Progress bs =
    bind-Progress (length bs) (tag bs) _ (tag-IsDefinite bs) (λ (field, wt, rest) e.
      if_both (Progress (length bs)) ((field == 1) && (wt == 2))
        (message-Progress (length bs) rest decode_series some (tag_takes bs field wt rest e)
          decode_series-IsDefinite)
        (skip-Progress none (length bs) rest wt (tag_takes bs field wt rest e)))
