-- ===== src/Setup/Room.antt =====
-- server.go, `buckets` and `New`: the rings against what the scores read.
use self_hosted_anomaly_dete.Common.{
  ℕ, ◌+◌, ◌*◌, ◌/◌, ◌%◌, ◌≤◌, ◌<◌, ◌≡◌, refl, ap, ◌∙◌, Bool, true, false, Option, none, some, List,
  arith, ◌==◌, ◌&&◌, ltb, leb, if◌then◌else◌, if_cases, length,
}
use mathlib.Core.Path.{subst}
use native.Mathlib.Nat.{div-add-mod', mod-lt, add-mul, one-mul, zero-mul}
use self_hosted_anomaly_dete.Common.Int.{ℤ, pos, negsuc, ◌-ℤ◌, int_laws}
use self_hosted_anomaly_dete.Floats.{Floats}
use self_hosted_anomaly_dete.Series.{Series, at, at_bucket, close_until, final}
use self_hosted_anomaly_dete.Series.Window.{IsValid, at_bucket-close_until}
use self_hosted_anomaly_dete.Store.{new_store}
use self_hosted_anomaly_dete.Detect.{Params, Cache, score}
use self_hosted_anomaly_dete.Detect.Reach.{IsRead, score_read}
use self_hosted_anomaly_dete.Eval.{Info}
use self_hosted_anomaly_dete.Setup.{Config, Server, buckets, is_refused, make_server, new_server}

-- The buckets of a duration cover it, and no fewer would.
pub buckets_lem :
    (d step : ℕ) → 0 < step → (d ≤ buckets d step * step) × (buckets d step * step < d + step)
unfolding buckets
buckets_lem d step h =
    let q = d / step in
    let split = div-add-mod' d step in
    let P : ℕ → Type 0 = λ n. (d ≤ (q + n) * step) × ((q + n) * step < d + step) in
    if_cases P (d % step == 0)
      (λ e.
        let none_left : d % step ≡ 0 = ground (arith, e) in
        let all = add-mul q 0 step ∙ ap (λ n. q * step + n) (zero-mul step) in
        (omega (arith, split, none_left, all), omega (arith, split, none_left, all, h)))
      (λ e.
        let some_left : 0 < d % step = ground (arith, e) in
        let all = add-mul q 1 step ∙ ap (λ n. q * step + n) (one-mul step) in
        (omega (arith, split, mod-lt d h, all), omega (arith, split, some_left, all)))

module _ (fl : Floats) where
  -- What `At` answers, but for the open bucket `h` its final value.
  abbrev pub with_final : Series fl (Info fl) → ℕ → ℤ → fl.F
  with_final s h (negsuc y) = fl.nan
  with_final s h (pos y) = if y == h then fl.widen (fl.narrow (final fl s)) else at_bucket fl s y

  -- Of the buckets from `reach` before `h` on, the oldest `gone` are missing.
  abbrev pub without : ℕ → ℕ → ℕ → (ℤ → fl.F) → ℤ → fl.F
  without gone reach h f (negsuc y) = f (negsuc y)
  without gone reach h f (pos y) =
      if ltb (y + reach) (h + gone) && leb h (y + reach) then fl.nan else f (pos y)

  abbrev pub reach_of : Params fl → ℕ
  reach_of p = (p.seasons + 1) * p.season

  -- What a score under `p` misses when its bucket, the open one of the series, is closed and `gone`
  -- more buckets are.
  abbrev pub HasRoom : (List fl.F → List fl.F) → fl.F → Params fl → ℕ → Type 0
  HasRoom sort mad_factor p capacity =
      (s : Series fl (Info fl)) (h gone : ℕ) (c : Cache fl)
      → IsValid s
      → length s.vals ≡ capacity
      → s.head ≡ some h
      → score fl sort mad_factor (at fl (close_until fl s h (h + 1 + gone))) (pos h) p c
        ≡ score fl sort mad_factor (without gone (reach_of p) h (with_final s h)) (pos h) p c

  ring_for-HasRoom :
      (sort : List fl.F → List fl.F) (mad_factor : fl.F) (p : Params fl) (capacity : ℕ)
      → capacity ≡ reach_of p + 2
      → p.lookback ≤ reach_of p
      → HasRoom sort mad_factor p capacity
  unfolding at
  ring_for-HasRoom sort mad_factor p capacity e back s h gone c valid size head =
      score_read fl sort mad_factor (at fl closed) known p lo (pos h) agree (omega int_laws)
        (omega (int_laws, back, spread)) c
    where
      closed : Series fl (Info fl)
      closed = close_until fl s h (h + 1 + gone)

      known : ℤ → fl.F
      known = without gone (reach_of p) h (with_final s h)

      lo : ℤ
      lo = pos h -ℤ pos (p.seasons * p.season + p.season)

      spread : reach_of p ≡ p.seasons * p.season + p.season
      spread = add-mul p.seasons 1 p.season ∙ ap (λ n. p.seasons * p.season + n) (one-mul p.season)

      agree : (b : ℤ) → IsRead lo (pos h) b → at fl closed b ≡ known b
      agree (negsuc y) r = refl
      agree (pos y) r =
          let low : y ≤ h = omega (int_laws, r.1) in
          let high : h ≤ y + reach_of p = omega (int_laws, r.0, spread) in
          let room : length s.vals ≡ reach_of p + 2 = size ∙ e in
          ground (
            arith,
            at_bucket-close_until fl s h (h + 1 + gone) y valid head (omega arith),
            low,
            high,
            room,
          )

module _ (fl : Floats) (tenth billionth : fl.F) where
  abbrev Sizes : Server fl → Type 0
  Sizes sv =
      (sv.prom.capacity ≡ (sv.prom_p.seasons + 1) * sv.prom_p.season + 2)
      × (sv.logs.capacity ≡ (sv.log_p.seasons + 1) * sv.log_p.season + 2)

  abbrev of_some : Option (Server fl) → Server fl → Server fl
  of_some none sv = sv
  of_some (some sv') sv = sv'

  made-Sizes :
      (cfg : Config fl) (sv : Server fl) (b : Bool)
      → (if b then none else some (make_server fl tenth billionth cfg)) ≡ some sv
      → Sizes sv
  unfolding new_store
  made-Sizes cfg sv true p = absurd (ground (arith, p))
  made-Sizes cfg sv false p = subst Sizes (ap (λ o. of_some o sv) p) (refl, refl)

  -- A server that `New` makes, of look-backs that are no longer than the history and one season:
  -- when a valid series with a ring of the server's size closes its open bucket and `gone` later
  -- ones, the score of that bucket, and the cache that it leaves, are those over all that `At`
  -- answered before, with the open bucket's final value, but for the oldest `gone` of the buckets
  -- that a score may read, which are NaN. So nothing is missed where only the open bucket is closed;
  -- of metrics and of logs alike.
  pub new_server-HasRoom :
      (sort : List fl.F → List fl.F) (mad_factor : fl.F) (cfg : Config fl) (sv : Server fl)
      → new_server fl tenth billionth cfg ≡ some sv
      → sv.prom_p.lookback ≤ (sv.prom_p.seasons + 1) * sv.prom_p.season
      → sv.log_p.lookback ≤ (sv.log_p.seasons + 1) * sv.log_p.season
      → HasRoom fl sort mad_factor sv.prom_p sv.prom.capacity
        × HasRoom fl sort mad_factor sv.log_p sv.logs.capacity
  unfolding new_server
  new_server-HasRoom sort mad_factor cfg sv e prom_back log_back =
      let sizes = made-Sizes cfg sv (is_refused cfg.step cfg.prom_season cfg.log_season) e in
      (
        ring_for-HasRoom fl sort mad_factor sv.prom_p sv.prom.capacity sizes.0 prom_back,
        ring_for-HasRoom fl sort mad_factor sv.log_p sv.logs.capacity sizes.1 log_back,
      )
