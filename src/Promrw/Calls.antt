-- ===== src/Promrw/Calls.antt =====
-- promrw.go: `Decode` and its callback, on every input.
use self_hosted_anomaly_dete.Common.{
  ℕ, zero, suc, ◌≤◌, ◌<◌, Bool, true, Option, none, some, List, [], ◌∷◌, ◌++◌, arith, length,
}
use self_hosted_anomaly_dete.Promrw.{
  Bytes, Result, ok, err, TimeSeries, request_field, after_field, decode_loop, decode,
}
use self_hosted_anomaly_dete.Promrw.Total.{IsDefinite, Progress, request_field-Progress}

-- A callback that puts the series in a list.
unfoldable pub collect : TimeSeries → List TimeSeries → List TimeSeries × Bool
collect ts seen = (seen ++ (ts ∷ []), true)

module _ {ℓ} {S : Type ℓ} (fn : TimeSeries → S → S × Bool) where
  after_field-IsDefinite :
      (n : ℕ) (again : Bytes → S → S × Result (Unit {0})) (s : S)
      (r : Result (Option TimeSeries × Bytes))
      → Progress n r
      → ((bs : Bytes) (s' : S) → length bs < n → IsDefinite (again bs s').1)
      → IsDefinite (after_field fn again s r).1
  unfolding after_field
  after_field-IsDefinite n again s (ok (none, rest)) p ih = ih rest s p
  after_field-IsDefinite n again s (ok (some ts, rest)) p ih = ground (arith, ih rest (fn ts s).0)
  after_field-IsDefinite n again s (err e) p ih = p

  decode_loop-IsDefinite :
      (fuel : ℕ) (bs : Bytes) (s : S) → length bs ≤ fuel → IsDefinite (decode_loop fn fuel bs s).1
  unfolding decode_loop
  decode_loop-IsDefinite fuel [] s h = tt
  decode_loop-IsDefinite zero (b ∷ bs) s h = absurd (omega arith)
  decode_loop-IsDefinite (suc fuel) (b ∷ bs) s h =
      after_field-IsDefinite (suc (length bs)) (decode_loop fn fuel) s (request_field (b ∷ bs))
        (request_field-Progress (b ∷ bs))
        (λ bs' s' k. decode_loop-IsDefinite fuel bs' s' (omega arith))

  -- On every input, well formed or not, and for every callback, `Decode` returns: without an error,
  -- or with one that the source names. It does not run out of fuel.
  pub decode-IsDefinite : (buf : Bytes) (s : S) → IsDefinite (decode fn buf s).1
  unfolding decode
  decode-IsDefinite buf s = decode_loop-IsDefinite (length buf) buf s (omega arith)
