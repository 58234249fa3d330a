-- ===== src/Severity.antt =====
-- anomalyd/internal/server/eval.go, `newFinding`, `severity`, `templateSeverity` and
-- `templateLevel`, with `level` of server.go: the level of a template, and the labels of a finding
-- that name its alert and rate it. The labels of the series, which stand before them, are a list;
-- `atoi` is `strconv.Atoi`, with 0 where it fails, and a level or a keyword that there is none of
-- is the empty text. The numbers of lines of the levels are those below 2^63.
pub mod Levels
use self_hosted_anomaly_dete.Common.{
  ℕ, zero, Bool, true, false, not, ◌&&◌, ◌||◌, Option, none, some, List, [], ◌∷◌, ltb, ◌==◌,
  if◌then◌else◌,
}
use mathlib.Core.List.{foldl}
use self_hosted_anomaly_dete.Common.Keys.{nat_eq, list_eq, list_beq, pair_eq, lookup, insert}
use self_hosted_anomaly_dete.Common.Text.{Text, bytes}
use self_hosted_anomaly_dete.Series.{Label}
use self_hosted_anomaly_dete.Series.Labels.{get_value}
use self_hosted_anomaly_dete.Wire.{valid_label_name}
use self_hosted_anomaly_dete.Logparse.Levels.{Level, unknown, name_of}
use self_hosted_anomaly_dete.Eval.{
  Kind, metric, metric_absent, log_template, log_volume, log_new, log_signature,
}
use self_hosted_anomaly_dete.Ingest.Logs.{Meta}
use self_hosted_anomaly_dete.Novelty.{TmplKey}
use self_hosted_anomaly_dete.State.Load.{lt_text}

-- The level comes before the best one so far: more lines, or as many and a smaller text.
unfoldable pub beats : Text × ℕ → Text × ℕ → Bool
beats p q = ltb q.1 p.1 || p.1 == q.1 && lt_text p.0 q.0

abbrev pub better : Text × ℕ → Text × ℕ → Text × ℕ
better best p = if beats p best then p else best

abbrev pub no_level : Text × ℕ
no_level = ([], zero)

-- `level`, over the levels of a template
unfoldable pub best_level : List (Text × ℕ) → Text × ℕ
best_level levels = foldl better no_level levels

abbrev pub level : Meta → Text
level m = (best_level m.levels).0

-- `inferred`, which is empty for no level
abbrev pub is_unknown : Level → Bool
is_unknown unknown = true
is_unknown _ = false

abbrev pub inferred_text : Level → Text
inferred_text l = if is_unknown l then [] else bytes (name_of l)

abbrev pub levels_or_none : Option Meta → Text × Text
levels_or_none none = ([], [])
levels_or_none (some m) = (level m, inferred_text m.inferred)

-- `templateLevel`
unfoldable pub template_level : List (TmplKey × Meta) → Text → ℕ → Text × Text
template_level tmpl svc id = levels_or_none (lookup (svc, id) tmpl)

-- `severity`, with `up` for the direction
unfoldable pub severity : Text → Bool → Text
severity l up =
    if (list_beq l (bytes "error") || list_beq l (bytes "warn")) && up
    then bytes "warning"
    else bytes "info"

abbrev pub is_weak : Text → Bool
is_weak l = list_beq l [] || list_beq l (bytes "unknown") || list_beq l (bytes "info")

-- `templateSeverity`
unfoldable pub template_severity : Text → Text → Bool → Text
template_severity l inferred up =
    severity (if not (list_beq inferred []) && is_weak l then inferred else l) up

abbrev pub Labels : Type 0
Labels = List (Text × Text)

-- The labels of a series but its name, over those that are there.
unfoldable pub copy_labels : List Label → Labels → Labels
copy_labels [] out = out
copy_labels (l ∷ ls) out = copy_labels ls (
    if not (list_beq l.name (bytes "__name__")) && valid_label_name l.name
    then insert l.name l.value out
    else out)

abbrev pub kind_text : Kind → Text
kind_text metric = bytes "metric"
kind_text metric_absent = bytes "metric_absent"
kind_text log_template = bytes "log_template"
kind_text log_volume = bytes "log_volume"
kind_text log_new = bytes "log_new_template"
kind_text log_signature = bytes "log_signature"

abbrev pub direction_text : Bool → Text
direction_text up = if up then bytes "up" else bytes "down"

abbrev pub rated : Text → Text → Text → Labels → Labels
rated alert tier sev out =
    insert (bytes "severity") sev
      (insert (bytes "tier") tier (insert (bytes "alertname") alert out))

module _ (atoi : Text → ℕ) (tmpl : List (TmplKey × Meta)) where
  abbrev pub volume_severity : Text → Bool → Text
  volume_severity l up =
      if not up && (list_beq l (bytes "info") || list_beq l (bytes "unknown"))
      then bytes "warning"
      else severity l up

  -- The `switch` of `newFinding`, over the labels so far.
  unfoldable pub rate : Kind → List Label → Bool → Labels → Labels
  rate metric ls up out =
      insert (bytes "metric") (get_value ls (bytes "__name__"))
        (rated (bytes "AnomalydMetricAnomaly") (bytes "2") (bytes "warning") out)
  rate metric_absent ls up out =
      insert (bytes "metric") (get_value ls (bytes "__name__"))
        (rated (bytes "AnomalydSeriesAbsent") (bytes "2") (bytes "warning") out)
  rate log_template ls up out =
      let (l, inferred) =
        template_level tmpl (get_value ls (bytes "service"))
          (atoi (get_value ls (bytes "template_id"))) in
      insert (bytes "level") l
        (rated (bytes "AnomalydLogTemplateRate") (bytes "2") (template_severity l inferred up) out)
  rate log_volume ls up out =
      rated (bytes "AnomalydLogVolume") (bytes "2")
        (volume_severity (get_value ls (bytes "level")) up) out
  rate log_new ls up out = out
  rate log_signature ls up out = out

  -- The labels that `newFinding` makes.
  unfoldable pub finding_labels : Kind → List Label → Bool → Labels
  finding_labels kind ls up = rate kind ls up (
      copy_labels ls (
        insert (bytes "direction") (direction_text up)
          ((bytes "source", bytes "anomalyd") ∷ (bytes "anomaly_kind", kind_text kind) ∷ [])))
