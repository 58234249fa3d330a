-- ===== src/Eval/Protocol.antt =====
-- eval.go: the events of a series, against the two findings that it can have.
use self_hosted_anomaly_dete.Common.{
  ℕ, zero, suc, ◌≡◌, refl, ◌∙◌, Bool, true, false, ◌&&◌, Option, none, some, List, [], ◌∷◌, ◌++◌,
  arith, ltb, if◌then◌else◌, if_both,
}
use self_hosted_anomaly_dete.Common.Int.{ℤ, pos, ◌+ℤ◌}
use self_hosted_anomaly_dete.Floats.{Floats}
use self_hosted_anomaly_dete.Detect.{Params, Cache, Result}
use self_hosted_anomaly_dete.Eval.{
  Info, Limits, Detail, Event, series, absence, fire, update, resolve, Absence, abs_firing,
  still_absent, track_absent, unscored, decide, scored, judge, absence_step, eval_bucket, eval_from,
  eval_series, anomalous, is_metric, is_both,
}

-- Whether the finding of the series fires, and whether that of its absence does.
pub record Open : Type 0 where
  pub anomaly : Bool
  pub missing : Bool

-- A finding fires only when it did not, and is kept up and resolved only when it did.
unfoldable pub react : {fl : Floats} → Open → Event fl → Option Open
react o (fire series d) = if o.anomaly then none else some (record o { anomaly = true })
react o (fire absence d) = if o.missing then none else some (record o { missing = true })
react o (update series d) = if o.anomaly then some o else none
react o (update absence d) = if o.missing then some o else none
react o (resolve series) = if o.anomaly then some (record o { anomaly = false }) else none
react o (resolve absence) = if o.missing then some (record o { missing = false }) else none

unfoldable pub follow : {fl : Floats} → Open → List (Event fl) → Option Open
follow o [] = some o
follow o (e ∷ es) = elim (react o e) [ none ↦ none | some o' ↦ follow o' es ]

abbrev pub is_firing : Absence → Bool
is_firing abs_firing = true
is_firing _ = false

-- What the state of the series says of its two findings.
abbrev pub open_of : {fl : Floats} → Info fl → Open
open_of info = record { anomaly = info.firing; missing = is_firing info.absent }

follow-append :
    {fl : Floats} (o o' : Open) (xs ys : List (Event fl))
    → follow o xs ≡ some o'
    → follow o (xs ++ ys) ≡ follow o' ys
unfolding follow
follow-append o o' [] ys h = ground arith
follow-append o o' (e ∷ xs) ys h = go (react o e) h (λ p. follow-append p o' xs ys)
  where
    go :
        (r : Option Open)
        → (elim r [ none ↦ none | some p ↦ follow p xs ]) ≡ some o'
        → ((p : Open) → follow p xs ≡ some o' → follow p (xs ++ ys) ≡ follow o' ys)
        → (elim r [ none ↦ none | some p ↦ follow p (xs ++ ys) ]) ≡ follow o' ys
    go none k ih = absurd (ground arith)
    go (some p) k ih = ih p k

-- The step `f` of a state allows its events.
abbrev Allowed : {fl : Floats} → Info fl → Info fl × List (Event fl) → Type 0
Allowed info r = follow (open_of info) r.1 ≡ some (open_of r.0)

module _ (fl : Floats) (cfg : Limits fl) where
  still_absent-Allowed :
      (seen : Bool) (b : ℤ) (info : Info fl) → Allowed info (still_absent fl cfg seen b info)
  unfolding still_absent follow react
  still_absent-Allowed seen b info = ground arith

  track_absent-Allowed :
      (v : fl.F) (seen : Bool) (b : ℤ) (info : Info fl)
      → Allowed info (track_absent fl cfg v seen b info)
  unfolding track_absent follow react
  track_absent-Allowed v seen b info = ground (arith, still_absent-Allowed seen b info)

  absence_step-Allowed :
      (v : fl.F) (seen : Bool) (b : ℤ) (info : Info fl)
      → Allowed info (absence_step fl cfg v seen b info)
  unfolding absence_step follow
  absence_step-Allowed v seen b info =
      if_both (Allowed info) (is_metric info.kind && is_both info.dir && ltb 0 cfg.absent_buckets)
        {x = track_absent fl cfg v seen b info} {y = (info, [])}
        (track_absent-Allowed v seen b info) refl

  unscored-Allowed : (info : Info fl) → Allowed info (unscored fl cfg info)
  unfolding unscored follow react
  unscored-Allowed info = ground arith

  decide-Allowed :
      (anom : Bool) (d : Detail fl) (info : Info fl) → Allowed info (decide fl cfg anom d info)
  unfolding decide follow react
  decide-Allowed anom d info = ground arith

  judge-Allowed :
      (b : ℤ) (r : Option (Result fl)) (info : Info fl) → Allowed info (judge fl cfg b r info)
  unfolding judge scored
  judge-Allowed b none info = unscored-Allowed info
  judge-Allowed b (some r) info = decide-Allowed (anomalous fl r info cfg.threshold) _ _

  module _ (at : ℤ → fl.F) (seen : ℤ → Bool)
      (score : ℤ → Params fl → Cache fl → Option (Result fl) × Cache fl) where
    eval_bucket-Allowed :
        (b : ℤ) (info : Info fl) → Allowed info (eval_bucket fl cfg at seen score b info)
    unfolding eval_bucket
    eval_bucket-Allowed b info =
        let p = absence_step fl cfg (at b) (seen b) b info in
        let q = score b p.0.params p.0.cache in
        follow-append (open_of info) (open_of p.0) p.1 _
          (absence_step-Allowed (at b) (seen b) b info)
        ∙ judge-Allowed b q.0 (record (p.0) { cache = q.1 })

    eval_from-Allowed :
        (count : ℕ) (b : ℤ) (info : Info fl)
        → Allowed info (eval_from fl cfg at seen score b count info)
    unfolding eval_from
    eval_from-Allowed zero b info = unfold follow in refl
    eval_from-Allowed (suc count) b info =
        let p = eval_bucket fl cfg at seen score b info in
        follow-append (open_of info) (open_of p.0) p.1 _ (eval_bucket-Allowed b info)
        ∙ eval_from-Allowed count (b +ℤ pos 1) p.0

    -- Whatever the values, the scores and the settings, the events of `evalSeries` are in order:
    -- each of the two findings of a series fires only while it does not, is updated and resolved
    -- only while it does, and the state that is left says for both whether they fire.
    pub eval_series-Allowed :
        (last_eval : Option ℤ) (last : ℤ) (info : Info fl)
        → follow (open_of info) (eval_series fl cfg at seen score last_eval last info).2
          ≡ some (open_of (eval_series fl cfg at seen score last_eval last info).1)
    unfolding eval_series
    eval_series-Allowed last_eval last info = eval_from-Allowed _ _ info
