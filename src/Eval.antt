-- ===== src/Eval.antt =====
-- anomalyd/internal/server/eval.go, `evalSeries`, `trackAbsent` and `anomalous`, with the
-- per-series state of ingest.go: which findings one series starts, keeps up and ends, bucket by
-- bucket. An event carries what `apply` reads of it; of a resolve event that is its key. Of the
-- labels, which are passed through, the model keeps none. The bucket's score (`Detect.score` over
-- the series) and `seen` are parameters of a step.
pub mod Protocol
use self_hosted_anomaly_dete.Common.{
  ℕ, zero, suc, ◌+◌, ◌-◌, max, Bool, true, false, not, ◌&&◌, ◌||◌, Option, none, some, List, [],
  ◌∷◌, ◌++◌, ltb, leb, ◌==◌, if◌then◌else◌,
}
use self_hosted_anomaly_dete.Common.Int.{ℤ, pos, negsuc, pos_part, ◌+ℤ◌, ◌-ℤ◌, ltb_ℤ}
use self_hosted_anomaly_dete.Floats.{Floats}
use self_hosted_anomaly_dete.Detect
use self_hosted_anomaly_dete.Detect.{Params, Cache, Result}

-- `kind`
pub data Kind : Type 0 where
  metric metric_absent log_template log_volume log_new log_signature : Kind

-- `dir`: +1, -1, 0
pub data Direction : Type 0 where
  increases decreases both : Direction

-- `absent`
pub data Absence : Type 0 where
  abs_none abs_firing abs_expired : Absence

pub record Info (fl : Floats) : Type 0 where
  pub kind : Kind
  pub dir : Direction
  pub params : Params fl
  pub min_vol : fl.F
  pub cache : Cache fl
  pub pending : ℕ
  pub normal : ℕ
  pub missing : ℕ
  pub firing : Bool
  pub last : Result fl
  pub last_b : ℤ
  pub last_ok : Bool
  pub last_data : ℤ
  pub absent : Absence
  pub written : Bool
  pub absent_run : ℕ
  pub absent_since : ℤ
  pub undef_data : ℤ

pub record Limits (fl : Floats) : Type 0 where
  pub threshold : fl.F
  pub for_buckets : ℕ
  pub absent_buckets : ℕ
  pub absent_ttl : ℕ

-- The series an event is about, or its absence (the key with the prefix `absent\xff`).
pub data Subject : Type 0 where
  series absence : Subject

pub record Detail (fl : Floats) : Type 0 where
  pub kind : Kind
  pub result : Result fl
  pub bucket : ℤ
  pub up : Bool

pub data Event (fl : Floats) : Type 0 where
  fire : Subject → Detail fl → Event fl
  update : Subject → Detail fl → Event fl
  resolve : Subject → Event fl

abbrev pub max_catch_up : ℕ
max_catch_up = 3

abbrev pub is_metric : Kind → Bool
is_metric metric = true
is_metric _ = false

abbrev pub is_both : Direction → Bool
is_both both = true
is_both _ = false

module _ (fl : Floats) where
  open fl use {F, is_nan, of_ℕ, max_F, abs_F, neg_F, lt_F, le_F}

  unfoldable pub anomalous : Result fl → Info fl → F → Bool
  anomalous r info thr =
      if lt_F (of_ℕ 0) info.min_vol && lt_F (max_F r.observed r.expected) info.min_vol
      then false
      else elim info.dir [
        | increases ↦ le_F thr r.score
        | decreases ↦ le_F r.score (neg_F thr)
        | both ↦ le_F thr (abs_F r.score)
      ]

  module _ (cfg : Limits fl) where
    -- `trackAbsent` on a bucket that is missing, by the state it was in.
    unfoldable pub still_absent : Bool → ℤ → Info fl → Info fl × List (Event fl)
    still_absent seen b info = elim info.absent [
      | abs_firing ↦
          if ltb 0 cfg.absent_ttl && not (ltb_ℤ (b -ℤ info.absent_since) (pos cfg.absent_ttl))
          then (record info { absent = abs_expired }, resolve absence ∷ [])
          else (info, [])
      | abs_expired ↦ (info, [])
      | abs_none ↦
          let since : ℤ = if info.absent_run == 0 then b else info.absent_since in
          let counted : Info fl = record info {
            absent_since = since;
            absent_run = info.absent_run + 1;
          } in
          let detail : Detail fl = record {
            kind = metric_absent;
            result = info.last;
            bucket = since;
            up = false;
          } in
          if not seen
          then (info, [])
          else if leb cfg.absent_buckets (info.absent_run + 1)
              && info.written
              && info.last_ok
              && lt_F info.params.abs_floor info.last.expected
          then (record counted { absent = abs_firing }, fire absence detail ∷ [])
          else (counted, [])
    ]

    -- `trackAbsent`
    unfoldable pub track_absent : F → Bool → ℤ → Info fl → Info fl × List (Event fl)
    track_absent value seen b info =
        if not (is_nan value) || not (ltb_ℤ info.undef_data b)
        then (
          record info { absent = abs_none; absent_run = 0 },
          elim info.absent [ abs_firing ↦ resolve absence ∷ [] | _ ↦ [] ],
        )
        else still_absent seen b info

    -- The loop's body for a bucket without a score.
    unfoldable pub unscored : Info fl → Info fl × List (Event fl)
    unscored info =
        if info.firing && leb 3 (info.missing + 1)
        then (
          record info { missing = info.missing + 1; pending = 0; firing = false; normal = 0 },
          resolve series ∷ [],
        )
        else (record info { missing = info.missing + 1; pending = 0 }, [])

    -- The `switch` at its end.
    unfoldable pub decide : Bool → Detail fl → Info fl → Info fl × List (Event fl)
    decide anom detail info =
        if not info.firing && leb cfg.for_buckets info.pending
        then (record info { firing = true }, fire series detail ∷ [])
        else if info.firing && anom
        then (info, update series detail ∷ [])
        else if info.firing && leb 2 info.normal
        then (record info { firing = false }, resolve series ∷ [])
        else (info, [])

    -- The body for a bucket `b` with the score `r`.
    unfoldable pub scored : ℤ → Result fl → Info fl → Info fl × List (Event fl)
    scored b r info =
        let anom = anomalous r info cfg.threshold in
        let counted = record info {
          missing = 0;
          last = r;
          last_b = b;
          last_ok = true;
          pending = if anom then info.pending + 1 else 0;
          normal = if anom then 0 else info.normal + 1;
        } in
        decide anom
          (record { kind = info.kind; result = r; bucket = b; up = not (lt_F r.score (of_ℕ 0)) })
          counted

    unfoldable pub judge : ℤ → Option (Result fl) → Info fl → Info fl × List (Event fl)
    judge b none info = unscored info
    judge b (some r) info = scored b r info

    unfoldable pub absence_step : F → Bool → ℤ → Info fl → Info fl × List (Event fl)
    absence_step value seen b info =
        if is_metric info.kind && is_both info.dir && ltb 0 cfg.absent_buckets
        then track_absent value seen b info
        else (info, [])

    module _ (at : ℤ → F) (seen : ℤ → Bool)
        (score : ℤ → Params fl → Cache fl → Option (Result fl) × Cache fl) where
      -- One round of the loop of `evalSeries`.
      unfoldable pub eval_bucket : ℤ → Info fl → Info fl × List (Event fl)
      eval_bucket b info =
          let (info', absent) = absence_step (at b) (seen b) b info in
          let (r, cache) = score b info'.params info'.cache in
          let (info'', events) = judge b r (record info' { cache = cache }) in
          (info'', absent ++ events)

      unfoldable pub eval_from : ℤ → ℕ → Info fl → Info fl × List (Event fl)
      eval_from b zero info = (info, [])
      eval_from b (suc count) info =
          let (info', events) = eval_bucket b info in
          let (info'', later) = eval_from (b +ℤ pos 1) count info' in (info'', events ++ later)

      -- The first bucket to score: at most `maxCatchUp` before the end, and none twice.
      unfoldable pub start : Option ℤ → ℤ → ℤ
      start none last = last -ℤ pos max_catch_up +ℤ pos 1
      start (some e) last =
          let oldest = last -ℤ pos max_catch_up +ℤ pos 1 in
          if ltb_ℤ oldest (e +ℤ pos 1) then e +ℤ pos 1 else oldest

      -- `evalSeries`: the last scored bucket, the state and the events.
      unfoldable pub eval_series : Option ℤ → ℤ → Info fl → Option ℤ × Info fl × List (Event fl)
      eval_series last_eval last info =
          let from = start last_eval last in
          let count = pos_part (last -ℤ from +ℤ pos 1) in
          let (info', events) = eval_from from count info in
          ((if count == 0 then last_eval else some last), info', events)
