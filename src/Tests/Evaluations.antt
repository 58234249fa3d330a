-- ===== src/Tests/Evaluations.antt =====
-- eval.go at small rounds: new templates, signatures, alerts, and what is removed.
use self_hosted_anomaly_dete.Common.{
  ℕ, ◌+◌, ◌≡◌, refl, arith, ◌&&◌, Bool, true, false, none, some, List, [], ◌∷◌, ◌++◌, length, take,
  ltb, leb, if◌then◌else◌, replicate,
}
use self_hosted_anomaly_dete.Common.Int.{ℤ, pos}
use self_hosted_anomaly_dete.Common.Keys.{nat_eq, list_eq, list_beq_iff, pair_eq, lookup}
use self_hosted_anomaly_dete.Common.Text.{Text, bytes}
use self_hosted_anomaly_dete.Store.{Key, Store, new_store}
use self_hosted_anomaly_dete.Store.Count.{new_store-IsSound}
use self_hosted_anomaly_dete.Detect.{Params}
use self_hosted_anomaly_dete.Drain.Pool.{Pool}
use self_hosted_anomaly_dete.Eval.{Info, metric}
use self_hosted_anomaly_dete.Findings.{Finding, Board, resolved}
use self_hosted_anomaly_dete.Findings.Steps
use self_hosted_anomaly_dete.Logparse.Levels.{unknown}
use self_hosted_anomaly_dete.Ingest.Logs.{Meta, Setup, new_meta}
use self_hosted_anomaly_dete.Novelty.{Limits, TmplKey, SigKey, Cands, Alarms, eval_novelty, is_over}
use self_hosted_anomaly_dete.Novelty.Life.{
  Act, counted, round, verdicts, all_verdicts, verdicts-take, verdicts_end,
}
use self_hosted_anomaly_dete.Novelty.Spacing
use self_hosted_anomaly_dete.Novelty.Moves.{IsName}
use self_hosted_anomaly_dete.Novelty.Spacing.{fire_times, Since, fire_times-Since}
use self_hosted_anomaly_dete.Novelty.Expiry.{eval_novelty_lem}
use self_hosted_anomaly_dete.Alerts.{Sent, resolving_alerts}
use self_hosted_anomaly_dete.Alerts.Outbox
use self_hosted_anomaly_dete.Alerts.Outbox.{posts, outbox_posts, IsOrdered, posts-outbox_posts}
use self_hosted_anomaly_dete.Gc.{Kept, Cleans, gc, gc-Cleans}
use self_hosted_anomaly_dete.Rounds.Whole
use self_hosted_anomaly_dete.Rounds.Whole.{Engine, Moment, evaluate_whole}
use self_hosted_anomaly_dete.Rounds.Sound
use self_hosted_anomaly_dete.Rounds.Sound.{evaluate_whole-IsSound}
use self_hosted_anomaly_dete.Severity.{best_level}
use self_hosted_anomaly_dete.Severity.Levels.{best_level-same}
use self_hosted_anomaly_dete.Tests.Toy.{toy}

abbrev limits : Limits
limits = record { min_lines = 2; window = 100; ttl = 50; names = bytes "oom" ∷ [] }

abbrev params : Params toy
params = record {
  season = 4;
  seasons = 2;
  lookback = 8;
  threshold = some 4;
  abs_floor = some 0;
  rel_floor = some 0;
  poisson = false;
  scale_every = 1;
}

abbrev setup : Setup toy
setup = record {
  step = 60;
  warmup = 3600;
  max_clusters = 10;
  signatures = [];
  params = params;
  min_count = some 0;
}

abbrev acts : List Act
acts = counted (bytes "error") 3 ∷ round 5000 ∷ round 5010 ∷ round 5100 ∷ []

abbrev fresh_meta : Meta
fresh_meta = new_meta toy setup 1 4990

verdicts-take_example :
    verdicts limits toy setup acts fresh_meta
    ≡ take
        (length (verdicts limits toy setup acts fresh_meta))
        (if ltb 0 1 && leb (1 + 3600) 4990 then all_verdicts else [])
verdicts-take_example = verdicts-take limits toy setup acts 1 4990

abbrev meta : Meta
meta = record {
  levels = [];
  made_at = 4990;
  novel = true;
  count = 3;
  fired = none;
  inferred = unknown;
  sigs = 0 ∷ [];
  sig_lines = 2;
}

verdicts_end_example :
    verdicts limits toy setup (round 5000 ∷ (acts ++ (round 5200 ∷ []))) meta ≡ all_verdicts
verdicts_end_example =
    verdicts_end limits toy setup 5000 5200 acts meta refl refl (omega arith) (omega arith)

abbrev itoa : ℕ → Text
itoa n = replicate n 49

abbrev board : Board toy
board = record { active = []; resolved = [] }

board-IsSound : Steps.IsSound board
board-IsSound = record { distinct = tt; own = λ k f e. absurd (ground arith); capped = omega arith }

abbrev sig : SigKey
sig = (bytes "api", bytes "oom")

abbrev cands : Cands
cands = (sig, record { id = 1; sig = 0; lines = 2 }) ∷ []

abbrev turns : List (Spacing.Turn limits toy itoa)
turns =
    record { now = 100; cands = cands; board = board }
    ∷ record { now = 86399; cands = cands; board = board }
    ∷ record { now = 86500; cands = cands; board = board }
    ∷ []

sig-IsName : IsName limits toy itoa sig
sig-IsName = (refl, (refl, (refl, tt)))

fire_times-Since_example :
    Since limits toy itoa (lookup sig []) (fire_times limits toy itoa sig turns [])
fire_times-Since_example =
    fire_times-Since limits toy itoa sig turns [] sig-IsName
      ((sig-IsName, tt), ((sig-IsName, tt), ((sig-IsName, tt), tt)))

abbrev tmpl : List (TmplKey × Meta)
tmpl = ((bytes "api", 1), meta) ∷ []

abbrev alarms : Alarms limits toy itoa
alarms = (board, [])

eval_novelty_lem_example :
    Steps.IsSound (eval_novelty limits toy itoa 5000 tmpl alarms).1.0
    × ((k : Key) (f : Finding toy)
        → lookup k (eval_novelty limits toy itoa 5000 tmpl alarms).1.0.active ≡ some f
        → is_over limits toy itoa 5000 f ≡ false)
eval_novelty_lem_example = eval_novelty_lem limits toy itoa 5000 tmpl alarms board-IsSound

abbrev ended : Finding toy
ended = record {
  kind = metric;
  state = resolved;
  starts_at = 100;
  updated_at = 160;
  ends_at = some 160;
  bucket = pos 2;
  score = some 7;
  observed = some 9;
  expected = some 3;
  lower = some 0;
  upper = some 8;
  seasonal = true;
  up = true;
  key = 1 ∷ [];
  resolve_sent = false;
}

abbrev sent : Sent
sent = record { alerts_sent = 0; alert_errors = 0 }

-- The first post fails, the second is accepted.
abbrev calls : List (Outbox.Turn toy 60)
calls =
    record { now = 200; active = []; ended = (160, ended) ∷ []; first_ok = false; other_oks = [] }
    ∷ record { now = 260; active = []; ended = []; first_ok = false; other_oks = true ∷ [] }
    ∷ record { now = 320; active = []; ended = []; first_ok = true; other_oks = [] }
    ∷ []

posts-outbox_posts_example :
    posts toy 60 calls board sent ≡ outbox_posts toy 60 calls (resolving_alerts toy board.resolved)
posts-outbox_posts_example =
    posts-outbox_posts toy 60 calls board sent ((refl, tt), (tt, (tt, tt))) (unfold IsOrdered in tt)

abbrev hash : Key → ℕ
hash = length

abbrev empty : Store toy (Info toy)
empty = new_store toy 14 100

abbrev pool : Pool toy
pool = record {
  cfg = record { depth = 4; sim_th = some 1; max_children = 100; max_clusters = 10 };
  max_keys = 2;
  miners = [];
}

abbrev kept : Kept toy
kept = record { runs = 99; tmpl = tmpl; prom = empty; logs = empty }

gc-Cleans_example : Cleans hash (pos 50) (pos 60) 4 pool kept (gc toy (pos 50) (pos 60) 4 pool kept)
gc-Cleans_example =
    gc-Cleans toy hash (pos 50) (pos 60) 4 pool kept (new_store-IsSound toy (Info toy) 14 100)
      (new_store-IsSound toy (Info toy) 14 100) (refl, tt)

abbrev engine : Engine toy
engine = record {
  prom = empty;
  logs = empty;
  board = board;
  tmpl = tmpl;
  sig_fired = [];
  gc_runs = 99;
  sent = sent;
}

abbrev whole : Whole.Setup toy
whole = record {
  series = record { threshold = some 5; for_buckets = 2; absent_buckets = 0; absent_ttl = 0 };
  novelty = limits;
  step = 60;
  grace = 30;
  eval_interval = 60;
  log_season = 4;
}

abbrev moment : Moment toy
moment = record { now = 5000; prom_clock = 4980; pool = pool; oks = true ∷ [] }

abbrev seen : ℤ → Bool
seen b = true

evaluate_whole-IsSound_example :
    Sound.IsSound (evaluate_whole toy (λ xs. xs) (some 1) itoa whole seen moment engine).1
evaluate_whole-IsSound_example =
    evaluate_whole-IsSound toy (λ xs. xs) (some 1) itoa whole seen moment engine
      (record {
        prom = new_store-IsSound toy (Info toy) 14 100;
        logs = new_store-IsSound toy (Info toy) 14 100;
        board = board-IsSound;
        tmpl = (refl, tt);
      })

abbrev levels : List (Text × ℕ)
levels = (bytes "error", 3) ∷ (bytes "warn", 3) ∷ []

abbrev levels_turned : List (Text × ℕ)
levels_turned = (bytes "warn", 3) ∷ (bytes "error", 3) ∷ []

levels_agree : (l : Text) → lookup l levels ≡ lookup l levels_turned
levels_agree l = ground (arith, list_beq_iff (bytes "error") l, list_beq_iff (bytes "warn") l)

best_level-same_example : best_level levels ≡ best_level levels_turned
best_level-same_example =
    best_level-same levels levels_turned (refl, (refl, tt)) (refl, (refl, tt)) levels_agree
