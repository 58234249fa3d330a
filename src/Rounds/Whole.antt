-- ===== src/Rounds/Whole.antt =====
-- anomalyd/internal/server/eval.go, `Evaluate` with all that it calls: the series, the findings,
-- new templates and signatures, the removal of what is stale, and the alerts.
use self_hosted_anomaly_dete.Common.{ℕ, ltb, Bool, Option, none, some, List, if◌then◌else◌}
use self_hosted_anomaly_dete.Common.Int.{ℤ, pos, ◌-ℤ◌}
use self_hosted_anomaly_dete.Common.Text.{Text}
use self_hosted_anomaly_dete.Floats.{Floats}
use self_hosted_anomaly_dete.Store.{Store}
use self_hosted_anomaly_dete.Drain.Pool.{Pool}
use self_hosted_anomaly_dete.Eval
use self_hosted_anomaly_dete.Eval.{Info}
use self_hosted_anomaly_dete.Findings.{Board}
use self_hosted_anomaly_dete.Ingest.{quot}
use self_hosted_anomaly_dete.Ingest.Logs.{Meta}
use self_hosted_anomaly_dete.Novelty
use self_hosted_anomaly_dete.Novelty.{TmplKey, SigKey, eval_novelty}
use self_hosted_anomaly_dete.Gc.{gc}
use self_hosted_anomaly_dete.Alerts.{Alert, Sent, send_alerts}
use self_hosted_anomaly_dete.Rounds.{evaluate}

-- What a round changes of the server.
pub record Engine (fl : Floats) : Type 0 where
  pub prom : Store fl (Info fl)
  pub logs : Store fl (Info fl)
  pub board : Board fl
  pub tmpl : List (TmplKey × Meta)
  pub sig_fired : List (SigKey × ℕ)
  pub gc_runs : ℕ
  pub sent : Sent

-- What it reads of the configuration, in seconds, but for the season of the log series.
pub record Setup (fl : Floats) : Type 0 where
  pub series : Eval.Limits fl
  pub novelty : Novelty.Limits
  pub step : ℕ
  pub grace : ℕ
  pub eval_interval : ℕ
  pub log_season : ℕ

-- What it reads of the rest: the clock, the newest sample's second (0 before the first one), the
-- miners, and what the Alertmanagers answer.
pub record Moment (fl : Floats) : Type 0 where
  pub now : ℕ
  pub prom_clock : ℕ
  pub pool : Pool fl
  pub oks : List Bool

module _ (fl : Floats) (sort : List fl.F → List fl.F) (mad_factor : fl.F) (itoa : ℕ → Text)
    (cfg : Setup fl) (seen : ℤ → Bool) where
  -- `promOpen` and `logOpen`
  abbrev pub open_at : ℕ → ℤ
  open_at clock = quot (pos clock -ℤ pos cfg.grace) cfg.step

  abbrev pub if_started : ℕ → Option ℤ
  if_started clock = if ltb 0 clock then some (open_at clock) else none

  -- `Evaluate`: what is posted, and the server.
  unfoldable pub evaluate_whole : Moment fl → Engine fl → List (Alert fl) × Engine fl
  evaluate_whole t e =
      let (prom, logs, board) =
        evaluate fl sort mad_factor cfg.series seen (if_started t.prom_clock) (open_at t.now) t.now
          (e.prom, e.logs, e.board) in
      let (tmpl, after_novelty) =
        eval_novelty cfg.novelty fl itoa t.now e.tmpl (board, e.sig_fired) in
      let (board', sig_fired) = after_novelty in
      let kept =
        gc fl (open_at t.prom_clock) (open_at t.now) cfg.log_season t.pool
          (record { runs = e.gc_runs; tmpl = tmpl; prom = prom; logs = logs }) in
      let (alerts, board'', sent) = send_alerts fl cfg.eval_interval t.now t.oks (board', e.sent) in
      (
        alerts,
        record {
          prom = kept.prom;
          logs = kept.logs;
          board = board'';
          tmpl = kept.tmpl;
          sig_fired = sig_fired;
          gc_runs = kept.runs;
          sent = sent;
        },
      )
