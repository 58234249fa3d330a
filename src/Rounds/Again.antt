-- ===== src/Rounds/Again.antt =====
-- eval.go: a bucket is scored once, over rounds of `Evaluate`.
use self_hosted_anomaly_dete.Common.{
  ℕ, ◌≡◌, refl, ap, ◌∙◌, Bool, false, Option, none, some, List, [], ◌==◌, arith, if◌then◌else◌, leb,
  if_both, if_cases, Bool-cases, inl, inr,
}
use self_hosted_anomaly_dete.Common.Int.{ℤ, pos, negsuc, pos_part, ◌≤ℤ◌, ◌+ℤ◌, ◌-ℤ◌}
use self_hosted_anomaly_dete.Floats.{Floats}
use self_hosted_anomaly_dete.Series.{Series, at, at_bucket, advance, advance_bucket, close_until}
use self_hosted_anomaly_dete.Series.Window.{head-close_until}
use self_hosted_anomaly_dete.Detect.{Params, Cache, Result, score}
use self_hosted_anomaly_dete.Eval.{Info, Limits, start, eval_from, eval_series}
use self_hosted_anomaly_dete.Rounds.{is_before, advance_to, eval_closed, eval_one}

module _ (fl : Floats) (cfg : Limits fl) (at : ℤ → fl.F) (seen : ℤ → Bool)
    (score : ℤ → Params fl → Cache fl → Option (Result fl) × Cache fl) where
  abbrev to_score : Option ℤ → ℤ → ℕ
  to_score last_eval last = pos_part (last -ℤ start fl cfg at seen score last_eval last +ℤ pos 1)

  none_left : (last : ℤ) → to_score (some last) last ≡ 0
  unfolding start ◌+ℤ◌ ◌-ℤ◌
  none_left last = ground arith

  eval_series_idle :
      (last_eval : Option ℤ) (last : ℤ) (info : Info fl)
      → to_score last_eval last ≡ 0
      → eval_series fl cfg at seen score last_eval last info ≡ (last_eval, info, [])
  unfolding eval_series
  eval_series_idle last_eval last info e = rw e (unfold eval_from in refl)

  -- After `evalSeries` up to `last` nothing up to `last` is left to score.
  eval_series-none_left :
      (last_eval : Option ℤ) (last : ℤ) (info : Info fl)
      → to_score (eval_series fl cfg at seen score last_eval last info).0 last ≡ 0
  unfolding eval_series
  eval_series-none_left last_eval last info = elim (Bool-cases (to_score last_eval last == 0)) [
    | inl e ↦ rw e (ground arith)
    | inr e ↦ rw e (none_left last)
  ]

-- No bucket before the open one is left to close.
abbrev Reached : Option ℕ → ℤ → Type 0
Reached none b = Unit
Reached (some h) b = b ≤ℤ pos h

module _ (fl : Floats) {Info : Type 0} where
  advance-stays : (b : ℤ) (t : Series fl Info) → Reached t.head b → advance fl t b ≡ t
  unfolding advance
  advance-stays (negsuc b) t h = refl
  advance-stays (pos b) t h = unfold advance_bucket in go t.head h
    where
      go :
          (o : Option ℕ)
          → Reached o (pos b)
          → (elim o [ none ↦ t | some h ↦ if leb b h then t else close_until fl t h b ]) ≡ t
      go none h = refl
      go (some k) h = ground arith

  advance-Reached : (b : ℤ) (s : Series fl Info) → Reached (advance fl s b).head b
  unfolding advance
  advance-Reached (negsuc b) s = go s.head
    where
      go : (o : Option ℕ) → Reached o (negsuc b)
      go none = tt
      go (some h) = omega arith
  advance-Reached (pos b) s = unfold advance_bucket in go s.head refl
    where
      after : Option ℕ → Series fl Info
      after none = s
      after (some h) = if leb b h then s else close_until fl s h b

      go : (o : Option ℕ) → s.head ≡ o → Reached (after o).head (pos b)
      go none e = rw e tt
      go (some h) e =
          if_cases (λ (r : Series fl Info). Reached r.head (pos b)) (leb b h)
            (λ y. rw e (ground arith)) (λ n. rw (head-close_until fl s h b) (omega arith))

module _ (fl : Floats) (sort : List fl.F → List fl.F) (mad_factor : fl.F) (cfg : Limits fl)
    (seen : ℤ → Bool) where
  eval_closed-again :
      (open_bucket : ℤ) (s : Series fl (Info fl))
      → eval_closed fl sort mad_factor cfg seen open_bucket
          (eval_closed fl sort mad_factor cfg seen open_bucket s).0
        ≡ ((eval_closed fl sort mad_factor cfg seen open_bucket s).0, [])
  unfolding eval_closed at at_bucket
  eval_closed-again open_bucket s =
      let last = open_bucket -ℤ pos 1 in
      let f =
        eval_series fl cfg (at fl s) seen (score fl sort mad_factor (at fl s)) s.last_eval last
          s.info in
      let t = record s { last_eval = f.0; info = f.1 } in
      ap (λ r. (record s { last_eval = r.0; info = r.1 }, r.2))
        (eval_series_idle fl cfg (at fl t) seen (score fl sort mad_factor (at fl t)) f.0 last f.1 (
          eval_series-none_left fl cfg (at fl s) seen (score fl sort mad_factor (at fl s))
            s.last_eval last s.info))

  -- A series that is not before the open bucket stays as it is.
  stays_at :
      (is_log : Bool) (open_bucket : ℤ) (t : Series fl (Info fl))
      → Reached t.head open_bucket
      → advance_to fl sort mad_factor cfg seen is_log open_bucket t ≡ t
  unfolding advance_to
  stays_at is_log open_bucket t h =
      if_both (λ r. r ≡ t) is_log (advance-stays fl open_bucket t h)
        (if_both (λ r. r ≡ t) (is_before fl sort mad_factor cfg seen t.head open_bucket)
          (advance-stays fl open_bucket t h) refl)

  advance_to-Reached :
      (is_log : Bool) (open_bucket : ℤ) (s : Series fl (Info fl))
      → Reached (advance_to fl sort mad_factor cfg seen is_log open_bucket s).head open_bucket
  unfolding advance_to
  advance_to-Reached is_log open_bucket s =
      if_both (λ (t : Series fl (Info fl)). Reached t.head open_bucket) is_log
        (advance-Reached fl open_bucket s)
        (if_cases (λ (t : Series fl (Info fl)). Reached t.head open_bucket)
          (is_before fl sort mad_factor cfg seen s.head open_bucket)
          (λ y. advance-Reached fl open_bucket s) (λ n. in_time s.head n))
    where
      in_time :
          (o : Option ℕ)
          → is_before fl sort mad_factor cfg seen o open_bucket ≡ false
          → Reached o open_bucket
      in_time none e = tt
      in_time (some h) e = ground (arith, e)

  -- A second round at the same open bucket, with no sample between, scores nothing: the series
  -- stays as the first round left it, and there is no event.
  pub eval_one-again :
      (is_log : Bool) (open_bucket : ℤ) (s : Series fl (Info fl))
      → eval_one fl sort mad_factor cfg seen is_log open_bucket
          (eval_one fl sort mad_factor cfg seen is_log open_bucket s).0
        ≡ ((eval_one fl sort mad_factor cfg seen is_log open_bucket s).0, [])
  unfolding eval_one
  eval_one-again is_log open_bucket s =
      let t = advance_to fl sort mad_factor cfg seen is_log open_bucket s in
      ap (eval_closed fl sort mad_factor cfg seen open_bucket) (
        stays_at is_log open_bucket (eval_closed fl sort mad_factor cfg seen open_bucket t).0
          (unfold eval_closed in advance_to-Reached is_log open_bucket s))
      ∙ eval_closed-again open_bucket t
