-- ===== src/Tests/Requests.antt =====
-- ingest.go at a few samples.
use self_hosted_anomaly_dete.Common.{
  ℕ, arith, zero, suc, List, [], ◌∷◌, false, none, some, Option, replicate,
}
use self_hosted_anomaly_dete.Common.Int.{pos, negsuc}
use self_hosted_anomaly_dete.Common.Text.{Text, bytes}
use self_hosted_anomaly_dete.Detect.{Params}
use self_hosted_anomaly_dete.Promrw.{Sample}
use self_hosted_anomaly_dete.Series.{mean, new_series}
use self_hosted_anomaly_dete.Ingest.{Batch, prom_info, take_samples}
use self_hosted_anomaly_dete.Ingest.Seen.{Marks, delivered, take_samples-Marks}
use self_hosted_anomaly_dete.Ingest.Logs.{Logs, Setup, global_template}
use self_hosted_anomaly_dete.Ingest.Logs.Counts.{is_bad_step, handle_push}
use self_hosted_anomaly_dete.Ingest.Logs.Totals.{Gains, Accounts, handle_push-Accounts}
use self_hosted_anomaly_dete.Ingest.Logs.Posted.{handle_logs, handle_logs-Gains}
use self_hosted_anomaly_dete.Ingest.Logs.Aliases.{IsCapped, global_template-IsCapped}
use self_hosted_anomaly_dete.Store.{new_store}
use self_hosted_anomaly_dete.Wire.{Push}
use self_hosted_anomaly_dete.Tests.Toy.{toy}

abbrev params : Params toy
params = record {
  season = 4;
  seasons = 2;
  lookback = 8;
  threshold = some 4;
  abs_floor = some 0;
  rel_floor = some 0;
  poisson = false;
  scale_every = 1;
}

-- The bits 0 stand for NaN.
abbrev from_bits : ℕ → Option ℕ
from_bits zero = none
from_bits (suc n) = some n

abbrev start : Batch toy from_bits 60 1000
start = record {
  series =
      new_series toy (bytes "k") (record { name = bytes "service"; value = bytes "api" } ∷ []) mean
        4 (prom_info toy params [] []);
  newest = pos 0;
  marked = negsuc 0;
  ring = replicate 5 0;
}

-- The second sample has no value, the fourth is dated too late.
abbrev samples : List Sample
samples =
    record { value = 3; timestamp = 120000 }
    ∷ record { value = 0; timestamp = 180000 }
    ∷ record { value = 5; timestamp = 420000 }
    ∷ record { value = 5; timestamp = 1200000 }
    ∷ []

take_samples-Marks_example :
    Marks
      (replicate 5 0)
      (delivered toy from_bits 60 1000 samples)
      (take_samples toy from_bits 60 1000 start samples).ring
take_samples-Marks_example = take_samples-Marks toy from_bits 60 1000 samples start (omega arith) tt

abbrev setup : Setup toy
setup = record {
  step = 60;
  warmup = 3600;
  max_clusters = 10;
  signatures = [];
  params = params;
  min_count = some 0;
}

abbrev server : Logs toy
server = record {
  pool = record {
    cfg = record { depth = 4; sim_th = some 1; max_children = 100; max_clusters = 10 };
    max_keys = 2;
    miners = [];
  };
  aliases = [];
  tmpl = [];
  made = [];
  log_start = 0;
  series = new_store toy 4 100;
  sig_matches = [];
  log_lines = 7;
  pushes = 0;
  push_errors = 0;
  bad_step = 0;
  agents = record { agents = []; swept = 0 };
}

-- The second count is not positive, the third is dated too late; the second item has no template.
abbrev pushed : Push
pushed = record {
  agent = bytes "host";
  step = pos 30;
  items =
      record {
        service = bytes "api";
        template = bytes "user <NUM> left";
        level = bytes "warn";
        counts = (pos 900, pos 3) ∷ (pos 960, negsuc 0) ∷ (pos 5000, pos 2) ∷ [];
      }
      ∷ record { service = bytes "api"; template = []; level = []; counts = (pos 900, pos 9) ∷ [] }
      ∷ [];
}

abbrev same : Text → Text
same t = t

abbrev no_hash : Text → ℕ
no_hash t = 0

abbrev no_itoa : ℕ → Text
no_itoa n = n ∷ []

handle_push-Accounts_example :
    Accounts toy setup no_hash no_itoa same 1000 same
      (bytes "_")
      pushed
      server
      (is_bad_step toy setup no_hash no_itoa same 1000 (pos 30))
      (handle_push toy setup no_hash no_itoa same 1000 same (bytes "_") pushed server)
handle_push-Accounts_example =
    handle_push-Accounts toy setup no_hash no_itoa same 1000 same (bytes "_") pushed server
      (omega arith)

global_template-IsCapped_example :
    IsCapped toy setup
      (global_template toy setup same (bytes "api") (bytes "user left") 3 1000 server).0.aliases
global_template-IsCapped_example =
    global_template-IsCapped toy setup same (bytes "api") (bytes "user left") 3 1000 server tt

-- An ERROR line of text and a JSON line.
abbrev posted : List Text
posted = bytes "ERROR user 15 left" ∷ bytes "{\"msg\": \"started\", \"level\": \"info\"}" ∷ []

abbrev json_paths : List Text
json_paths = bytes "msg" ∷ bytes "service" ∷ bytes "level" ∷ []

handle_logs-Gains_example : Gains toy setup no_hash no_itoa 2 server (
    handle_logs toy setup no_hash no_itoa some same json_paths
      (bytes "api")
      1000
      posted
      false
      server)
handle_logs-Gains_example =
    handle_logs-Gains toy setup no_hash no_itoa some same json_paths (bytes "api") 1000 posted false
      server
