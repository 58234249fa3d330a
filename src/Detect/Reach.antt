-- ===== src/Detect/Reach.antt =====
-- seasonal.go: the buckets that a score reads.
use self_hosted_anomaly_dete.Common.{
  ℕ, zero, suc, ◌+◌, ◌*◌, ◌≤◌, ◌≡◌, refl, Bool, Option, none, some, List, arith,
}
use native.Mathlib.Nat.{mul-le-mul_right}
use self_hosted_anomaly_dete.Common.Int.{ℤ, pos, ◌+ℤ◌, ◌-ℤ◌, ◌≤ℤ◌, int_laws}
use self_hosted_anomaly_dete.Floats.{Floats}
use self_hosted_anomaly_dete.Detect.{
  Params, Cache, known_from, history, expected_at, residuals, residual_scale, baseline, usable,
  robust_scale, floored, result, score,
}

-- The bucket is in what a score at `now` reads: not later than it, nor earlier than `lo`.
abbrev pub IsRead : ℤ → ℤ → ℤ → Type 0
IsRead lo now b = (lo ≤ℤ b) × (b ≤ℤ now)

module _ (fl : Floats) (sort : List fl.F → List fl.F) (mad_factor : fl.F) (at at' : ℤ → fl.F)
    (p : Params fl) (lo now : ℤ) (agree : (b : ℤ) → IsRead lo now b → at b ≡ at' b)
    (deep : lo +ℤ pos (p.seasons * p.season + p.season) ≤ℤ now)
    (back : lo +ℤ pos p.lookback ≤ℤ now) where
  known_from-agree :
      (n : ℕ) (b : ℤ)
      → lo ≤ℤ b
      → b +ℤ pos n ≤ℤ now +ℤ pos 1
      → known_from fl sort mad_factor at b n ≡ known_from fl sort mad_factor at' b n
  unfolding known_from
  known_from-agree zero b l h = refl
  known_from-agree (suc n) b l h = ground (
    arith,
    agree b (l, omega int_laws),
    known_from-agree n (b +ℤ pos 1) (omega int_laws) (omega int_laws),
  )

  history-agree :
      (n k : ℕ) (b : ℤ)
      → k + n ≤ p.seasons + 1
      → lo +ℤ pos (p.seasons * p.season) ≤ℤ b
      → b ≤ℤ now
      → history fl sort mad_factor at p.season b k n ≡ history fl sort mad_factor at' p.season b k n
  unfolding history
  history-agree zero k b i l h = refl
  history-agree (suc n) k b i l h =
      let early : k * p.season ≤ p.seasons * p.season =
        mul-le-mul_right p.season (omega (arith, i)) in
      ground (
        arith,
        agree (b -ℤ pos (k * p.season)) (omega (int_laws, early, l), omega int_laws),
        history-agree n (k + 1) b (omega (arith, i)) l h,
      )

  expected_at-agree :
      (b : ℤ)
      → lo +ℤ pos (p.seasons * p.season) ≤ℤ b
      → b ≤ℤ now
      → expected_at fl sort mad_factor at p b ≡ expected_at fl sort mad_factor at' p b
  unfolding expected_at
  expected_at-agree b l h = rw (history-agree p.seasons 1 b (omega arith) l h) refl

  residuals-agree :
      (n : ℕ) (seasonal : Bool) (exp : fl.F) (b : ℤ)
      → lo +ℤ pos (p.seasons * p.season) ≤ℤ b
      → b +ℤ pos n ≤ℤ now +ℤ pos 1
      → residuals fl sort mad_factor at p seasonal exp b n
        ≡ residuals fl sort mad_factor at' p seasonal exp b n
  unfolding residuals
  residuals-agree zero seasonal exp b l h = refl
  residuals-agree (suc n) seasonal exp b l h = ground (
    arith,
    agree b (omega int_laws, omega int_laws),
    expected_at-agree b l (omega int_laws),
    residuals-agree n seasonal exp (b +ℤ pos 1) (omega int_laws) (omega int_laws),
  )

  residual_scale-agree :
      (seasonal : Bool) (exp : fl.F)
      → residual_scale fl sort mad_factor at now p seasonal exp
        ≡ residual_scale fl sort mad_factor at' now p seasonal exp
  unfolding residual_scale
  residual_scale-agree seasonal exp =
      rw
        (residuals-agree p.season seasonal exp (now -ℤ pos p.season) (omega int_laws)
          (omega int_laws))
        refl

  baseline-agree : baseline fl sort mad_factor at now p ≡ baseline fl sort mad_factor at' now p
  unfolding baseline
  baseline-agree = ground (
    arith,
    expected_at-agree now (omega int_laws) (omega arith),
    known_from-agree p.lookback (now -ℤ pos p.lookback) (omega int_laws) (omega int_laws),
  )

  robust_scale-agree :
      (seasonal : Bool) (exp : fl.F) (c : Cache fl)
      → robust_scale fl sort mad_factor at now p seasonal exp c
        ≡ robust_scale fl sort mad_factor at' now p seasonal exp c
  unfolding robust_scale usable
  robust_scale-agree seasonal exp c = ground (arith, residual_scale-agree seasonal exp)

  now-IsRead : IsRead lo now now
  now-IsRead = (omega int_laws, omega arith)

  -- A score, and the cache that it leaves, read the buckets from `lo` to `now` only, where `lo` is
  -- the history's seasons and one more, and the look-back, before `now`.
  pub score_read :
      (c : Cache fl) → score fl sort mad_factor at now p c ≡ score fl sort mad_factor at' now p c
  unfolding score floored result
  score_read c = go (baseline fl sort mad_factor at now p) refl baseline-agree
    where
      go :
          (o : Option (fl.F × Bool))
          → baseline fl sort mad_factor at now p ≡ o
          → baseline fl sort mad_factor at now p ≡ baseline fl sort mad_factor at' now p
          → score fl sort mad_factor at now p c ≡ score fl sort mad_factor at' now p c
      go none e same = ground (arith, agree now now-IsRead)
      go (some (x, seasonal)) e same =
          ground (arith, agree now now-IsRead, robust_scale-agree seasonal x c)
