-- ===== src/State/Restart.antt =====
-- anomalyd/internal/server/state.go, `restoreFindings` and `load`: the findings of a snapshot, and
-- all of it. `about` stands for the labels of a finding that are read back, which the model of
-- findings leaves out, and `step` is not 0.
use self_hosted_anomaly_dete.Common.{
  ℕ, zero, suc, ◌-◌, min, Bool, true, false, not, Option, none, some, List, [], ◌∷◌, ltb, ◌==◌,
  if◌then◌else◌,
}
use mathlib.Core.List.{foldl}
use self_hosted_anomaly_dete.Common.Keys.{nat_eq, list_eq, pair_eq, lookup, insert}
use self_hosted_anomaly_dete.Common.Text.{Text, cut_prefix}
use self_hosted_anomaly_dete.Floats.{Floats}
use self_hosted_anomaly_dete.Series.{Series, Label}
use self_hosted_anomaly_dete.Store.{Key, lookup_with}
use self_hosted_anomaly_dete.Eval.{
  Info, Kind, metric, metric_absent, log_template, log_volume, log_new, log_signature, abs_firing,
}
use self_hosted_anomaly_dete.Findings.{Finding, absent_prefix}
use self_hosted_anomaly_dete.Ingest.Logs.{Meta, Setup}
use self_hosted_anomaly_dete.Novelty.{TmplKey, SigKey}
use self_hosted_anomaly_dete.State.{FindingSnap, StateFile, Live, state_version}
use self_hosted_anomaly_dete.State.Load.{service_order, load_service, valid_snaps, load_series}

-- The service, the number of the template where it is one, and the signature.
pub record About : Type 0 where
  pub service : Text
  pub template_id : Option ℕ
  pub signature : Text

abbrev pub is_after : ℕ → Option ℕ → Bool
is_after t none = true
is_after t (some at) = ltb at t

-- `strings.TrimPrefix`
abbrev pub trimmed : Key → Option Key → Key
trimmed key none = key
trimmed key (some rest) = rest

-- `sigFired` of a snapshot, over what there is.
unfoldable pub load_fired : List (SigKey × ℕ) → List (SigKey × ℕ) → List (SigKey × ℕ)
load_fired fired [] = fired
load_fired fired ((sk, at) ∷ snaps) = load_fired (insert sk at fired) snaps

module _ (fl : Floats) (cfg : Setup fl) (hash : Key → ℕ) (about : Finding fl → About)
    (absent_buckets : ℕ) where
  abbrev pub fire_again : Series fl (Info fl) → Series fl (Info fl)
  fire_again s = let info = s.info in record s { info = record info { firing = true } }

  abbrev pub absent_again : Finding fl → Series fl (Info fl) → Series fl (Info fl)
  absent_again f s =
      let info = s.info in
      record s { info = record info { absent = abs_firing; absent_since = f.bucket } }

  -- A finding of a new template, given the number of the template and its metadata.
  abbrev pub novel_again : TmplKey → ℕ → Option Meta → Live fl → Live fl × Bool
  novel_again k at none sv = (sv, false)
  novel_again k at (some m) sv =
      (record sv { tmpl = insert k (record m { novel = true; fired = some at }) sv.tmpl }, true)

  abbrev pub new_again : Text → Option ℕ → ℕ → Live fl → Live fl × Bool
  new_again svc none at sv = (sv, false)
  new_again svc (some id) at sv = novel_again (svc, id) at (lookup (svc, id) sv.tmpl) sv

  abbrev pub in_prom : Key → (Series fl (Info fl) → Series fl (Info fl)) → Live fl → Live fl × Bool
  in_prom key fn sv =
      let (prom, ran) = lookup_with fl hash sv.prom key fn in (record sv { prom = prom }, ran)

  abbrev pub in_logs : Key → (Series fl (Info fl) → Series fl (Info fl)) → Live fl → Live fl × Bool
  in_logs key fn sv =
      let (logs, ran) = lookup_with fl hash sv.logs key fn in (record sv { logs = logs }, ran)

  -- The `switch` on the finding's kind: the server, and whether the finding is active again.
  unfoldable pub find_owner : Kind → Key → Finding fl → Live fl → Live fl × Bool
  find_owner log_new key f sv = let a = about f in new_again a.service a.template_id f.starts_at sv
  find_owner log_signature key f sv =
      let a = about f in
      let sk : SigKey = (a.service, a.signature) in
      (
        (if is_after f.starts_at (lookup sk sv.sig_fired)
            then record sv { sig_fired = insert sk f.starts_at sv.sig_fired }
            else sv),
        true,
      )
  find_owner metric_absent key f sv =
      if ltb 0 absent_buckets
      then in_prom (trimmed key (cut_prefix absent_prefix key)) (absent_again f) sv
      else (sv, false)
  find_owner metric key f sv = in_prom key fire_again sv
  find_owner log_template key f sv = in_logs key fire_again sv
  find_owner log_volume key f sv = in_logs key fire_again sv

  abbrev pub activate : FindingSnap fl → Live fl × Bool → Live fl
  activate fs (sv, false) = sv
  activate fs (sv, true) =
      let board = sv.board in
      let f : Finding fl = let g = fs.finding in record g { key = fs.key } in
      record sv { board = record board { active = insert fs.key f board.active } }

  -- `restoreFindings`
  unfoldable pub restore_findings : List (FindingSnap fl) → Live fl → Live fl
  unfolding find_owner
  restore_findings [] sv = sv
  restore_findings (fs ∷ snaps) sv =
      let f = fs.finding in restore_findings snaps (activate fs (find_owner f.kind fs.key f sv))

  module _ (clean : Text → Text) (valid : Text → Bool) (prom_info log_info : List Label → Info fl)
      (now : ℕ) where
    abbrev pub load_templates : StateFile fl → Live fl → Live fl
    load_templates st sv =
        let (pool, tmpl) =
          foldl (load_service fl cfg clean st.templates) (sv.pool, sv.tmpl)
            (service_order st.templates) in
        record sv { pool = pool; tmpl = tmpl }

    abbrev pub load_start : ℕ → Live fl → Live fl
    load_start zero sv = sv
    load_start (suc t) sv = record sv { log_start = min (suc t) (now - cfg.warmup) }

    -- `load`, of a file that is there and decodes: an error for another version.
    unfoldable pub load : StateFile fl → Live fl → Option (Live fl)
    load st sv =
        let st' : StateFile fl = record st { logs = valid_snaps fl cfg valid st.logs } in
        let templates = load_templates st' sv in
        let series =
          if st.step == sv.step
          then load_series fl cfg hash prom_info log_info st' templates
          else templates in
        let fired = record series { sig_fired = load_fired series.sig_fired st.sig_fired } in
        let found = restore_findings st.findings fired in
        if not (st.version == state_version) then none else some (load_start st.log_start found)
