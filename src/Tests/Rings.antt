-- ===== src/Tests/Rings.antt =====
-- store.go, `Series`, at a ring of four buckets.
use self_hosted_anomaly_dete.Common.{
  ℕ, ◌+◌, ◌≡◌, refl, ◌&&◌, none, some, [], ◌∷◌, ltb, ◌==◌, if◌then◌else◌, replicate, arith,
}
use self_hosted_anomaly_dete.Series.{
  Series, Agg, mean, at_bucket, final, gap, close_until, advance_bucket, add_bucket,
}
use self_hosted_anomaly_dete.Series.Window.{IsValid, at_bucket-close_until}
use self_hosted_anomaly_dete.Series.Late.{late_mean}
use self_hosted_anomaly_dete.Tests.Toy.{toy}

-- Two samples with the sum 6 in the open bucket 5.
abbrev pub ring : Agg → Series toy ℕ
ring agg = record {
  key = [];
  labels = [];
  agg = agg;
  last_eval = none;
  info = 0;
  vals = some 4 ∷ none ∷ some 2 ∷ some 3 ∷ [];
  head = some 5;
  acc = some 6;
  cnt = 2;
  late = replicate 8 1;
}

ring-IsValid : (agg : Agg) → IsValid (ring agg)
ring-IsValid agg = record { room = omega arith; lates = refl }

at_bucket-close_until_example : at_bucket toy (close_until toy (ring mean) 5 7) 4 ≡ (
    if ltb 4 7 && ltb 7 (4 + 4)
    then (if 4 == 5
        then final toy (ring mean)
        else if ltb 4 5
        then at_bucket toy (ring mean) 4
        else gap toy (ring mean))
    else none)
at_bucket-close_until_example =
    at_bucket-close_until toy (ring mean) 5 7 4 (ring-IsValid mean) refl (omega arith)

late_mean_example :
    at_bucket toy (add_bucket toy (advance_bucket toy (ring mean) 7) 5 (some 3)) 5
    ≡ at_bucket toy (advance_bucket toy (add_bucket toy (ring mean) 5 (some 3)) 7) 5
late_mean_example =
    late_mean toy (ring mean) 5 7 (some 3) (ring-IsValid mean) refl (omega arith) (omega arith) refl
      (omega arith) (omega arith) (omega arith) (unfold final in refl) (unfold final in refl)
      (unfold final in refl) refl 5
