-- ===== src/Detect/Causal.antt =====
-- seasonal.go: a score does not look ahead.
use self_hosted_anomaly_dete.Common.{◌+◌, ◌*◌, ◌≡◌, List}
use self_hosted_anomaly_dete.Common.Int.{ℤ, pos, ◌-ℤ◌, ◌≤ℤ◌, int_laws}
use self_hosted_anomaly_dete.Floats.{Floats}
use self_hosted_anomaly_dete.Detect.{Params, Cache, score}
use self_hosted_anomaly_dete.Detect.Reach.{score_read}

module _ (fl : Floats) (sort : List fl.F → List fl.F) (mad_factor : fl.F) (at at' : ℤ → fl.F)
    (now : ℤ) (agree : (b : ℤ) → b ≤ℤ now → at b ≡ at' b) where
  -- The score of a bucket, and the cache that it leaves, do not look ahead: two series that agree
  -- up to the bucket give the same ones.
  pub score-agree :
      (p : Params fl) (c : Cache fl)
      → score fl sort mad_factor at now p c ≡ score fl sort mad_factor at' now p c
  score-agree p c =
      score_read fl sort mad_factor at at' p
        (now -ℤ pos (p.seasons * p.season + p.season + p.lookback)) now (λ b h. agree b h.1)
        (omega int_laws) (omega int_laws) c
