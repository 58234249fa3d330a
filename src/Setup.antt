-- ===== src/Setup.antt =====
-- anomalyd/internal/server/server.go, `New` and `buckets`: the parameters of a server from its
-- configuration. Durations are in seconds, and not negative. `buckets` divides in floats, which is
-- exact below 2^53; the model divides natural numbers and rounds up. The parts that begin empty,
-- the HTTP client and the labels to ignore are left out.
pub mod Room
use self_hosted_anomaly_dete.Common.{
  ℕ, ◌+◌, ◌-◌, ◌*◌, ◌/◌, ◌%◌, max, Bool, true, false, not, ◌&&◌, ◌||◌, Option, none, some, List, [],
  ◌==◌, if◌then◌else◌, replicate, length,
}
use self_hosted_anomaly_dete.Common.Text.{Text}
use self_hosted_anomaly_dete.Floats.{Floats}
use self_hosted_anomaly_dete.Store.{Store, new_store}
use self_hosted_anomaly_dete.Detect.{Params}
use self_hosted_anomaly_dete.Eval.{Info, max_catch_up}
use self_hosted_anomaly_dete.Drain
use self_hosted_anomaly_dete.Drain.Pool.{Pool, new_pool}

-- What `New` reads of `Config`.
pub record Config (fl : Floats) : Type 0 where
  pub step : ℕ
  pub grace : ℕ
  pub threshold : fl.F
  pub max_series : ℕ
  pub prom_season : ℕ
  pub prom_seasons : ℕ
  pub prom_lookback : ℕ
  pub prom_rel_floor : fl.F
  pub absent_ttl : ℕ
  pub max_log_series : ℕ
  pub log_season : ℕ
  pub log_seasons : ℕ
  pub log_lookback : ℕ
  pub drain : Drain.Config fl
  pub max_services : ℕ
  pub signature_names : List Text

-- What it makes of them.
pub record Server (fl : Floats) : Type 0 where
  pub step : ℕ
  pub prom_p : Params fl
  pub log_p : Params fl
  pub prom : Store fl (Info fl)
  pub logs : Store fl (Info fl)
  pub pool : Pool fl
  pub prom_seen : List ℕ
  pub absent_ttl : ℕ
  pub sig_matches : List ℕ

-- `buckets`, for a step that is not 0
unfoldable pub buckets : ℕ → ℕ → ℕ
buckets d step = d / step + (if d % step == 0 then 0 else 1)

-- The check of `New` that fails.
unfoldable pub is_refused : ℕ → ℕ → ℕ → Bool
is_refused step prom_season log_season =
    step == 0 || not (prom_season % step == 0) || not (log_season % step == 0)

module _ (fl : Floats) (tenth billionth : fl.F) where
  -- The parameters of the metrics' scores; `billionth` is 1e-9.
  abbrev pub prom_params : Config fl → Params fl
  prom_params cfg = record {
    season = buckets cfg.prom_season cfg.step;
    seasons = cfg.prom_seasons;
    lookback = buckets cfg.prom_lookback cfg.step;
    threshold = cfg.threshold;
    abs_floor = billionth;
    rel_floor = cfg.prom_rel_floor;
    poisson = false;
    scale_every = max 1 (buckets 3600 cfg.step);
  }

  -- Those of the log series; `tenth` is 0.1.
  abbrev pub log_params : Config fl → Params fl
  log_params cfg = record {
    season = buckets cfg.log_season cfg.step;
    seasons = cfg.log_seasons;
    lookback = buckets cfg.log_lookback cfg.step;
    threshold = cfg.threshold;
    abs_floor = fl.of_ℕ 1;
    rel_floor = tenth;
    poisson = true;
    scale_every = max 1 (buckets 3600 cfg.step);
  }

  -- The seasons of history and one more, the open bucket and a spare one.
  abbrev pub ring_for : Params fl → ℕ
  ring_for p = (p.seasons + 1) * p.season + 2

  abbrev pub make_server : Config fl → Server fl
  make_server cfg = record {
    step = cfg.step;
    prom_p = prom_params cfg;
    log_p = log_params cfg;
    prom = new_store fl (ring_for (prom_params cfg)) cfg.max_series;
    logs = new_store fl (ring_for (log_params cfg)) cfg.max_log_series;
    pool = new_pool fl cfg.drain cfg.max_services;
    prom_seen = replicate (buckets cfg.grace cfg.step + max_catch_up + 64) 0;
    absent_ttl = buckets cfg.absent_ttl cfg.step;
    sig_matches = replicate (length cfg.signature_names) 0;
  }

  -- `New`: no server where the check fails.
  unfoldable pub new_server : Config fl → Option (Server fl)
  new_server cfg =
      if is_refused cfg.step cfg.prom_season cfg.log_season then none else some (make_server cfg)
