-- ===== src/Promrw/RoundTrip.antt =====
-- promrw.go: what `Encoder` writes, `Decode` reads back.
use self_hosted_anomaly_dete.Common.{
  ℕ, zero, suc, Bool, true, false, ◌≤◌, if◌then◌else◌, ◌<◌, ◌≡◌, refl, ap, ◌∙◌, some, List, [], ◌∷◌,
  ◌++◌, arith, length, All,
}
use mathlib.Core.List.{foldl, append_assoc, append-nil}
use self_hosted_anomaly_dete.Promrw.{
  Bytes, Result, ok, err, callback, TimeSeries, no_series, walk, series_field, decode_series,
  request_field, after_field, decode_loop, decode,
}
use self_hosted_anomaly_dete.Promrw.Encode.{append_bytes, series_bytes, encode_body}
use self_hosted_anomaly_dete.Promrw.Uvarint.{bytes_field-append_uvarint, append_bytes_lem}
use self_hosted_anomaly_dete.Promrw.Calls.{collect}
use self_hosted_anomaly_dete.Promrw.Walk.{foldl-parts, walk-parts, append_bytes_longer, parts}
use self_hosted_anomaly_dete.Promrw.Fields.{
  series_field-label, tag-append_bytes, foldl-add_sample, sample_part_longer, foldl-add_label,
  FitsLabel, FitsSample, label_part, sample_part, label_part_longer, add_sample,
  series_field-sample, series_bytes-parts, add_label, Fits,
}

-- Every length and value of the series fits 64 bits.
pub record FitsSeries (ts : TimeSeries) : Type 0 where
  pub labels : All FitsLabel ts.labels
  pub samples : All FitsSample ts.samples
  pub total : Fits (series_bytes ts)

decode_series-bytes : (ts : TimeSeries) → FitsSeries ts → decode_series (series_bytes ts) ≡ ok ts
unfolding decode_series
decode_series-bytes ts h =
    let tail : Bytes = parts sample_part ts.samples in
    let e : series_bytes ts ≡ parts label_part ts.labels ++ tail = series_bytes-parts ts in
    let (left, room, labelled) =
      walk-parts FitsLabel label_part add_label series_field
        (λ s l rest p. (label_part_longer l rest, series_field-label s l rest p)) ts.labels
        (length (series_bytes ts)) tail no_series h.labels (omega (arith, ap length e)) in
    let (left', room', sampled) =
      walk-parts FitsSample sample_part add_sample series_field
        (λ t s rest p. (sample_part_longer s rest, series_field-sample t s rest p)) ts.samples left
        [] (foldl add_label no_series ts.labels) h.samples (rw append-nil room) in
    let both : foldl add_sample (foldl add_label no_series ts.labels) ts.samples ≡ ts =
      rw (foldl-add_label ts.labels no_series) (foldl-add_sample ts.samples _) in
    ap (λ bs. walk series_field (length (series_bytes ts)) bs no_series) e
    ∙ labelled
    ∙ (rw append-nil at sampled)
    ∙ unfold walk in ap ok both

abbrev series_part : TimeSeries → Bytes
series_part ts = append_bytes [] 1 (series_bytes ts)

request_field-series :
    (ts : TimeSeries) (rest : Bytes)
    → FitsSeries ts
    → request_field (series_part ts ++ rest) ≡ ok (some ts, rest)
unfolding request_field
request_field-series ts rest h = rw (
  tag-append_bytes 1 (series_bytes ts) rest (omega arith),
  bytes_field-append_uvarint (series_bytes ts) rest h.total,
  decode_series-bytes ts h,
)

-- A call for each series in turn, up to the first that fails.
module _ {ℓ} {S : Type ℓ} (fn : TimeSeries → S → S × Bool) where
  unfoldable pub call_each : List TimeSeries → S → S × Result (Unit {0})
  call_each [] s = (s, ok tt)
  call_each (ts ∷ series) s =
      let rest = call_each series (fn ts s).0 in
      if (fn ts s).1 then rest else ((fn ts s).0, err callback)

  decode_loop_step :
      (fuel : ℕ) (bs rest : Bytes) (ts : TimeSeries) (s : S)
      → 0 < length bs
      → request_field bs ≡ ok (some ts, rest)
      → decode_loop fn (suc fuel) bs s ≡ (
          if (fn ts s).1 then decode_loop fn fuel rest (fn ts s).0 else ((fn ts s).0, err callback))
  unfolding decode_loop after_field
  decode_loop_step fuel [] rest ts s h e = absurd (omega arith)
  decode_loop_step fuel (b ∷ bs) rest ts s h e = rw e (go (fn ts s).1)
    where
      go :
          (b : Bool)
          → (elim b [
            | true ↦ decode_loop fn fuel rest (fn ts s).0
            | false ↦ ((fn ts s).0, err callback)
          ])
            ≡ (if b then decode_loop fn fuel rest (fn ts s).0 else ((fn ts s).0, err callback))
      go true = refl
      go false = refl

  decode_loop-parts :
      (series : List TimeSeries) (fuel : ℕ) (s : S)
      → All FitsSeries series
      → length (parts series_part series) ≤ fuel
      → decode_loop fn fuel (parts series_part series) s ≡ call_each series s
  unfolding call_each
  decode_loop-parts [] fuel s ps h = unfold decode_loop in refl
  decode_loop-parts (ts ∷ series) zero s ps h =
      absurd (omega (arith, append_bytes_longer 1 (series_bytes ts) (parts series_part series)))
  decode_loop-parts (ts ∷ series) (suc fuel) s ps h =
      let rest : Bytes = parts series_part series in
      let longer : length rest < length (series_part ts ++ rest) =
        omega (arith, append_bytes_longer 1 (series_bytes ts) rest) in
      decode_loop_step fuel (series_part ts ++ rest) rest ts s (omega arith)
        (request_field-series ts rest ps.0)
      ∙ ap (λ r. if (fn ts s).1 then r else ((fn ts s).0, err callback))
          (decode_loop-parts series fuel (fn ts s).0 ps.1 (omega arith))

encode_body-parts : (series : List TimeSeries) → encode_body series ≡ parts series_part series
unfolding encode_body
encode_body-parts series =
    foldl-parts series_part _ (λ b ts. append_bytes_lem b 1 (series_bytes ts)) [] series

module _ {ℓ} {S : Type ℓ} (fn : TimeSeries → S → S × Bool) where
  -- For any callback, `Decode` of what `Encode` wrote calls it for each series in their order, until
  -- it fails: then `Decode` returns the callback's error, and no later series is given to it. Every
  -- length and value fits 64 bits.
  pub decode-call_each :
      (series : List TimeSeries) (s : S)
      → All FitsSeries series
      → decode fn (encode_body series) s ≡ call_each fn series s
  unfolding decode
  decode-call_each series s h =
      rw (encode_body-parts series) (decode_loop-parts fn series _ s h (omega arith))

call_each-collect :
    (series seen : List TimeSeries) → call_each collect series seen ≡ (seen ++ series, ok tt)
unfolding call_each collect
call_each-collect [] seen = rw append-nil refl
call_each-collect (ts ∷ series) seen =
    call_each-collect series (seen ++ (ts ∷ [])) ∙ rw append_assoc

-- `Decode` calls its callback with the series that `Encode` was given, in their order, with their
-- labels, values and timestamps, and returns no error, where every length and value fits 64 bits.
pub decode-encode_body :
    (series : List TimeSeries)
    → All FitsSeries series
    → decode collect (encode_body series) [] ≡ (series, ok tt)
decode-encode_body series h = decode-call_each collect series [] h ∙ call_each-collect series []
