-- ===== src/Rounds.antt =====
-- anomalyd/internal/server/eval.go, `Evaluate`: one round over the series of both stores, and the
-- events to the findings. The workers run the shards in some order, and a shard's map its series;
-- the model takes the order of its lists. Novelty, the removal of stale series and the alerts,
-- which follow in the source, are in the module Whole.
pub mod Again
pub mod Whole
pub mod Stores
pub mod Sound
use self_hosted_anomaly_dete.Common.{
  ℕ, ◌+◌, ◌/◌, Bool, true, false, Option, none, some, List, [], ◌∷◌, ◌++◌, ltb, if◌then◌else◌,
}
use self_hosted_anomaly_dete.Common.Int.{ℤ, pos, ◌-ℤ◌, ltb_ℤ}
use self_hosted_anomaly_dete.Floats.{Floats}
use self_hosted_anomaly_dete.Series.{Series, at, advance}
use self_hosted_anomaly_dete.Store.{Key, Shard, Store}
use self_hosted_anomaly_dete.Detect.{Params, Cache, Result, score}
use self_hosted_anomaly_dete.Eval.{Info, Limits, Event, eval_series}
use self_hosted_anomaly_dete.Findings.{Board, apply}

module _ (fl : Floats) (sort : List fl.F → List fl.F) (mad_factor : fl.F) (cfg : Limits fl)
    (seen : ℤ → Bool) where
  -- `sr.Head() < open`, where `noHead` is the least number.
  abbrev pub is_before : Option ℕ → ℤ → Bool
  is_before none open_bucket = true
  is_before (some h) open_bucket = ltb_ℤ (pos h) open_bucket

  unfoldable pub advance_to : Bool → ℤ → Series fl (Info fl) → Series fl (Info fl)
  advance_to is_log open_bucket s =
      if is_log
      then advance fl s open_bucket
      else if is_before s.head open_bucket
      then advance fl s open_bucket
      else s

  -- The buckets before the open one are scored, over what `At` answers.
  unfoldable pub eval_closed : ℤ → Series fl (Info fl) → Series fl (Info fl) × List (Event fl)
  eval_closed open_bucket s =
      let (last_eval, info, events) =
        eval_series fl cfg (at fl s) seen (score fl sort mad_factor (at fl s)) s.last_eval
          (open_bucket -ℤ pos 1) s.info in
      (record s { last_eval = last_eval; info = info }, events)

  -- The body of the loop over a shard.
  unfoldable pub eval_one : Bool → ℤ → Series fl (Info fl) → Series fl (Info fl) × List (Event fl)
  unfolding eval_closed
  eval_one is_log open_bucket s = eval_closed open_bucket (advance_to is_log open_bucket s)

  unfoldable pub eval_shard :
      Bool → ℤ → Shard fl (Info fl) → Shard fl (Info fl) × List (Key × List (Event fl))
  eval_shard is_log open_bucket [] = ([], [])
  eval_shard is_log open_bucket ((key, s) ∷ m) =
      let (s', events) = eval_one is_log open_bucket s in
      let (m', others) = eval_shard is_log open_bucket m in
      ((key, s') ∷ m', (s.key, events) ∷ others)

  unfoldable pub eval_shards :
      Bool
      → ℤ
      → List (Shard fl (Info fl))
      → List (Shard fl (Info fl)) × List (Key × List (Event fl))
  eval_shards is_log open_bucket [] = ([], [])
  eval_shards is_log open_bucket (m ∷ ms) =
      let (m', events) = eval_shard is_log open_bucket m in
      let (ms', others) = eval_shards is_log open_bucket ms in (m' ∷ ms', events ++ others)

  -- `run`
  unfoldable pub run :
      Bool → ℤ → Store fl (Info fl) → Store fl (Info fl) × List (Key × List (Event fl))
  run is_log open_bucket st =
      let (shards, events) = eval_shards is_log open_bucket st.shards in
      (record st { shards = shards }, events)

  unfoldable pub apply_all : ℕ → Board fl → List (Key × List (Event fl)) → Board fl
  apply_all now board [] = board
  apply_all now board ((key, events) ∷ es) = apply_all now (apply fl now key board events) es

  -- The metrics' part, which needs a first sample.
  abbrev pub run_prom :
      Option ℤ → Store fl (Info fl) → Store fl (Info fl) × List (Key × List (Event fl))
  run_prom none st = (st, [])
  run_prom (some open_bucket) st = run false open_bucket st

  -- `Evaluate`, with the open buckets of metrics (if there was a sample) and of logs.
  unfoldable pub evaluate :
      Option ℤ
      → ℤ
      → ℕ
      → Store fl (Info fl) × Store fl (Info fl) × Board fl
      → Store fl (Info fl) × Store fl (Info fl) × Board fl
  evaluate prom_open log_open now (prom, logs, board) =
      let (prom', events) = run_prom prom_open prom in
      let (logs', others) = run true log_open logs in
      (prom', logs', apply_all now board (events ++ others))
