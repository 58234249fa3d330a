-- ===== src/Findings.antt =====
-- anomalyd/internal/server/eval.go, `apply`, `resolveLocked`, `newFinding` and `fill`: the findings
-- that are firing, by key, and the resolved ones, newest first. Of a finding the model keeps all
-- fields but the texts (ID, labels and annotations), which nothing here reads; Severity makes the
-- labels.
pub mod Steps
pub mod Agree
use self_hosted_anomaly_dete.Common.{
  ℕ, ◌+◌, Bool, true, false, Option, none, some, List, [], ◌∷◌, ◌++◌, map, ltb, if◌then◌else◌,
  length, take,
}
use self_hosted_anomaly_dete.Common.Int.{ℤ}
use self_hosted_anomaly_dete.Common.Keys.{nat_eq, list_eq, lookup, insert, delete}
use self_hosted_anomaly_dete.Floats.{Floats}
use self_hosted_anomaly_dete.Store.{Key}
use self_hosted_anomaly_dete.Detect.{Result}
use self_hosted_anomaly_dete.Eval.{
  Kind, metric_absent, Subject, series, absence, Detail, Event, fire, update, resolve,
}

-- `State`
pub data State : Type 0 where
  firing resolved : State

-- `Finding`, with times in seconds. `bucket` is the number of a bucket; for a new template and for
-- a signature the source has a time there, and the model its second.
pub record Finding (fl : Floats) : Type 0 where
  pub kind : Kind
  pub state : State
  pub starts_at : ℕ
  pub updated_at : ℕ
  pub ends_at : Option ℕ
  pub bucket : ℤ
  pub score : fl.F
  pub observed : fl.F
  pub expected : fl.F
  pub lower : fl.F
  pub upper : fl.F
  pub seasonal : Bool
  pub up : Bool
  pub key : Key
  pub resolve_sent : Bool

-- `active` and `resolved` of the server.
pub record Board (fl : Floats) : Type 0 where
  pub active : List (Key × Finding fl)
  pub resolved : List (Finding fl)

abbrev pub max_resolved : ℕ
max_resolved = 500

-- "absent\xff"
abbrev pub absent_prefix : List ℕ
absent_prefix = 97 ∷ 98 ∷ 115 ∷ 101 ∷ 110 ∷ 116 ∷ 255 ∷ []

-- The key of a finding on a series with this key.
abbrev pub finding_key : Key → Subject → Key
finding_key key series = key
finding_key key absence = absent_prefix ++ key

abbrev pub is_absent : Kind → Bool
is_absent metric_absent = true
is_absent _ = false

module _ (fl : Floats) where
  open fl use {F, of_ℕ}

  unfoldable pub fill : Finding fl → Detail fl → Finding fl
  fill f ev = record f {
    score = ev.result.score;
    observed = ev.result.observed;
    expected = ev.result.expected;
    lower = ev.result.lower;
    upper = ev.result.upper;
    seasonal = ev.result.seasonal;
    bucket = ev.bucket;
  }

  unfoldable pub new_finding : Key → Detail fl → ℕ → Finding fl
  new_finding key ev now =
      let r = ev.result in
      let quiet = is_absent ev.kind in
      record {
        kind = ev.kind;
        state = firing;
        starts_at = now;
        updated_at = now;
        ends_at = none;
        bucket = ev.bucket;
        score = if quiet then of_ℕ 0 else r.score;
        observed = if quiet then of_ℕ 0 else r.observed;
        expected = r.expected;
        lower = r.lower;
        upper = r.upper;
        seasonal = r.seasonal;
        up = ev.up;
        key = key;
        resolve_sent = false;
      }

  unfoldable pub resolve_locked : ℕ → Board fl → Finding fl → Board fl
  resolve_locked now board f =
      let f' : Finding fl = record f { state = resolved; ends_at = some now; updated_at = now } in
      let all : List (Finding fl) = f' ∷ board.resolved in
      record {
        active = delete f.key board.active;
        resolved = if ltb max_resolved (length all) then take max_resolved all else all;
      }

  -- The body of the loop of `apply`, on the finding that was looked up.
  unfoldable pub apply_found : ℕ → Key → Board fl → Event fl → Option (Finding fl) → Board fl
  apply_found now key board (fire s ev) f =
      let k = finding_key key s in
      record board { active = insert k (new_finding k ev now) board.active }
  apply_found now key board (update s ev) none = board
  apply_found now key board (update s ev) (some f) =
      let f' : Finding fl = record (fill f ev) { updated_at = now } in
      record board { active = insert (finding_key key s) f' board.active }
  apply_found now key board (resolve s) none = board
  apply_found now key board (resolve s) (some f) = resolve_locked now board f

  abbrev pub subject_of : Event fl → Subject
  subject_of (fire s ev) = s
  subject_of (update s ev) = s
  subject_of (resolve s) = s

  unfoldable pub apply_event : ℕ → Key → Board fl → Event fl → Board fl
  unfolding apply_found
  apply_event now key board e =
      apply_found now key board e (lookup (finding_key key (subject_of e)) board.active)

  -- `apply`, on the events of the series `key`.
  unfoldable pub apply : ℕ → Key → Board fl → List (Event fl) → Board fl
  apply now key board [] = board
  apply now key board (e ∷ es) = apply now key (apply_event now key board e) es
