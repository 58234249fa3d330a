-- ===== src/Detect.antt =====
-- anomalyd/internal/detect/seasonal.go: the score of a bucket against a seasonal baseline, over a
-- series that is read through `at`. The arithmetic of floats and the sorting of a slice of them
-- (`slices.Sort`) are parameters.
pub mod Reach
pub mod Causal
use self_hosted_anomaly_dete.Common.{
  ℕ, zero, suc, ◌+◌, ◌-◌, ◌*◌, ◌/◌, ◌%◌, Bool, true, false, not, ◌&&◌, Option, none, some, List, [],
  ◌∷◌, ◌++◌, map, ltb, leb, ◌==◌, if◌then◌else◌, length, get_or,
}
use self_hosted_anomaly_dete.Common.Int.{ℤ, pos, negsuc, ◌-ℤ◌, ◌+ℤ◌, ltb_ℤ}
use self_hosted_anomaly_dete.Floats.{Floats}

pub record Params (fl : Floats) : Type 0 where
  pub season : ℕ
  pub seasons : ℕ
  pub lookback : ℕ
  pub threshold : fl.F
  pub abs_floor : fl.F
  pub rel_floor : fl.F
  pub poisson : Bool
  pub scale_every : ℕ

pub record Cache (fl : Floats) : Type 0 where
  pub mad_scale : fl.F
  pub at : ℤ
  pub seasonal : Bool
  pub valid : Bool

pub record Result (fl : Floats) : Type 0 where
  pub observed : fl.F
  pub expected : fl.F
  pub score : fl.F
  pub upper : fl.F
  pub lower : fl.F
  pub scale : fl.F
  pub seasonal : Bool

module _ (fl : Floats) (sort : List fl.F → List fl.F) (mad_factor : fl.F) where
  open fl use {F, nan, is_nan, of_ℕ, ◌+F◌, ◌-F◌, ◌*F◌, ◌/F◌, max_F, abs_F, sqrt_F}

  -- `median`, of a list that is not empty.
  unfoldable pub median : List F → F
  median xs =
      let ys = sort xs in
      let n = length ys in
      if n % 2 == 1
      then get_or ys (n / 2) nan
      else ◌/F◌ (◌+F◌ (get_or ys (n / 2 - 1) nan) (get_or ys (n / 2) nan)) (of_ℕ 2)

  module _ (at : ℤ → F) where
    -- The values of the buckets `from`, `from + 1`, …, without those that are missing.
    unfoldable pub known_from : ℤ → ℕ → List F
    known_from b zero = []
    known_from b (suc count) =
        let rest = known_from (b +ℤ pos 1) count in if is_nan (at b) then rest else at b ∷ rest

    -- The loop over the seasons `k`, `k + 1`, …, before the bucket `b`.
    unfoldable pub history : ℕ → ℤ → ℕ → ℕ → List F
    history season b k zero = []
    history season b k (suc count) =
        let rest = history season b (k + 1) count in
        let v = at (b -ℤ pos (k * season)) in if is_nan v then rest else v ∷ rest

    unfoldable pub expected_at : Params fl → ℤ → Option F
    expected_at p b =
        let hist = history p.season b 1 p.seasons in
        if length hist == 0 then none else some (median hist)

    -- The residuals of the buckets `b`, `b + 1`, ….
    unfoldable pub residuals : Params fl → Bool → F → ℤ → ℕ → List F
    residuals p seasonal exp b zero = []
    residuals p seasonal exp b (suc count) =
        let rest = residuals p seasonal exp (b +ℤ pos 1) count in
        let v = at b in
        let e : Option F = if seasonal then expected_at p b else some exp in
        if is_nan v then rest else elim e [ none ↦ rest | some x ↦ ◌-F◌ v x ∷ rest ]

    unfoldable pub residual_scale : ℤ → Params fl → Bool → F → Option F
    residual_scale now p seasonal exp =
        let res = residuals p seasonal exp (now -ℤ pos p.season) p.season in
        let med = median res in
        if ltb (length res) 10
        then none
        else some (◌*F◌ mad_factor (median (map (λ x. abs_F (◌-F◌ x med)) (sort res))))

    -- The expected value, and whether it is seasonal: `none` for a cold start with too little data.
    unfoldable pub baseline : ℤ → Params fl → Option (F × Bool)
    baseline now p = elim (expected_at p now) [
      | some e ↦ some (e, true)
      | none ↦
          let rec' = known_from (now -ℤ pos p.lookback) p.lookback in
          if ltb (length rec') 3 then none else some (median rec', false)
    ]

    unfoldable pub usable : ℤ → Params fl → Bool → Cache fl → Bool
    usable now p seasonal cache =
        cache.valid
        && (if seasonal then cache.seasonal else not cache.seasonal)
        && ltb 0 p.scale_every
        && not (ltb_ℤ now cache.at)
        && ltb_ℤ (now -ℤ cache.at) (pos p.scale_every)

    -- The robust scale from the cache or from the residuals, and the cache afterwards.
    unfoldable pub robust_scale : ℤ → Params fl → Bool → F → Cache fl → Option (F × Cache fl)
    robust_scale now p seasonal exp cache =
        if usable now p seasonal cache
        then some (cache.mad_scale, cache)
        else elim (residual_scale now p seasonal exp) [
          | none ↦ none
          | some s ↦ some (s, record { mad_scale = s; at = now; seasonal = seasonal; valid = true })
        ]

    unfoldable pub floored : Params fl → F → F → F
    floored p exp mad =
        let scale = max_F (max_F mad p.abs_floor) (◌*F◌ p.rel_floor (abs_F exp)) in
        if p.poisson then max_F scale (sqrt_F (max_F exp (of_ℕ 1))) else scale

    unfoldable pub result : Params fl → F → F → Bool → F → Result fl
    result p obs exp seasonal scale = record {
      observed = obs;
      expected = exp;
      score = ◌/F◌ (◌-F◌ obs exp) scale;
      upper = ◌+F◌ exp (◌*F◌ p.threshold scale);
      lower = ◌-F◌ exp (◌*F◌ p.threshold scale);
      scale = scale;
      seasonal = seasonal;
    }

    -- `Score`: the result, if there is one, and the cache afterwards.
    unfoldable pub score : ℤ → Params fl → Cache fl → Option (Result fl) × Cache fl
    score now p cache =
        let obs = at now in
        if is_nan obs then (none, cache) else elim (baseline now p) [
          | none ↦ (none, cache)
          | some (exp, seasonal) ↦ elim (robust_scale now p seasonal exp cache) [
            | none ↦ (none, cache)
            | some (mad, cache') ↦ (some (result p obs exp seasonal (floored p exp mad)), cache')
          ]
        ]
