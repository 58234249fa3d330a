-- ===== src/Tests/Scores.antt =====
-- eval.go and seasonal.go at a series that is high in the bucket 9.
use self_hosted_anomaly_dete.Common.{
  replicate, List, ℕ, ◌≡◌, true, false, Bool, Option, none, some, [], ◌∷◌, arith, if◌then◌else◌,
}
use self_hosted_anomaly_dete.Common.Int.{ℤ, pos, ◌≤ℤ◌, ltb_ℤ}
use self_hosted_anomaly_dete.Detect.{Params, Cache, Result, score}
use self_hosted_anomaly_dete.Detect.Causal.{score-agree}
use self_hosted_anomaly_dete.Eval.{Event, Info, Limits, metric, increases, abs_none, eval_series}
use self_hosted_anomaly_dete.Eval.Protocol.{follow, open_of, eval_series-Allowed}
use self_hosted_anomaly_dete.Store.{Key}
use self_hosted_anomaly_dete.Findings.{Board}
use self_hosted_anomaly_dete.Findings.Steps.{Steps}
use self_hosted_anomaly_dete.Series.{Series, mean}
use self_hosted_anomaly_dete.Rounds.{eval_one}
use self_hosted_anomaly_dete.Rounds.Again.{eval_one-again}
use self_hosted_anomaly_dete.Tests.Toy.{toy}

abbrev params : Params toy
params = record {
  season = 2;
  seasons = 3;
  lookback = 4;
  threshold = some 5;
  abs_floor = some 1;
  rel_floor = some 0;
  poisson = false;
  scale_every = 0;
}

abbrev no_cache : Cache toy
no_cache = record { mad_scale = some 0; at = pos 0; seasonal = false; valid = false }

abbrev flat : ℤ → Option ℕ
flat b = some 3

-- The same up to the bucket 9.
abbrev rising : ℤ → Option ℕ
rising b = if ltb_ℤ (pos 9) b then some 90 else some 3

rising_agrees : (b : ℤ) → b ≤ℤ pos 9 → flat b ≡ rising b
rising_agrees b h = ground arith

score-agree_example :
    score toy (λ xs. xs) (some 1) flat (pos 9) params no_cache
    ≡ score toy (λ xs. xs) (some 1) rising (pos 9) params no_cache
score-agree_example =
    score-agree toy (λ xs. xs) (some 1) flat rising (pos 9) rising_agrees params no_cache

abbrev outcome : ℤ → ℕ → Result toy
outcome b z = record {
  observed = some 9;
  expected = some 3;
  score = some z;
  upper = some 8;
  lower = some 0;
  scale = some 1;
  seasonal = true;
}

abbrev info : Info toy
info = record {
  kind = metric;
  dir = increases;
  params = params;
  min_vol = some 0;
  cache = no_cache;
  pending = 0;
  normal = 0;
  missing = 0;
  firing = false;
  last = outcome (pos 0) 0;
  last_b = pos 0;
  last_ok = false;
  last_data = pos 0;
  absent = abs_none;
  written = true;
  absent_run = 0;
  absent_since = pos 0;
  undef_data = pos 0;
}

abbrev limits : Limits toy
limits = record { threshold = some 5; for_buckets = 2; absent_buckets = 0; absent_ttl = 0 }

abbrev always_high : ℤ → Params toy → Cache toy → Option (Result toy) × Cache toy
always_high b p c = (some (outcome b 7), c)

abbrev seen : ℤ → Bool
seen b = true

eval_series-Allowed_example :
    follow (open_of info) (eval_series toy limits flat seen always_high none (pos 9) info).2
    ≡ some (open_of (eval_series toy limits flat seen always_high none (pos 9) info).1)
eval_series-Allowed_example = eval_series-Allowed toy limits flat seen always_high none (pos 9) info

abbrev key : Key
key = 1 ∷ []

abbrev board : Board toy
board = record { active = []; resolved = [] }

abbrev measured : Series toy (Info toy)
measured = record {
  key = key;
  labels = [];
  agg = mean;
  last_eval = none;
  info = info;
  vals = some 4 ∷ none ∷ some 2 ∷ some 3 ∷ [];
  head = some 5;
  acc = some 6;
  cnt = 2;
  late = replicate 8 1;
}

abbrev first_round : Series toy (Info toy) × List (Event toy)
first_round = eval_one toy (λ xs. xs) (some 1) limits seen false (pos 7) measured

eval_one-again_example :
    eval_one toy (λ xs. xs) (some 1) limits seen false (pos 7) first_round.0 ≡ (first_round.0, [])
eval_one-again_example = eval_one-again toy (λ xs. xs) (some 1) limits seen false (pos 7) measured
