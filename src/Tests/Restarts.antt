-- ===== src/Tests/Restarts.antt =====
-- server.go, state.go and gen.go at small inputs.
use self_hosted_anomaly_dete.Common.{
  ℕ, ◌*◌, ◌/◌, ◌%◌, ◌≡◌, refl, arith, false, some, List, [], ◌∷◌, map, length, replicate,
}
use self_hosted_anomaly_dete.Common.Keys.{nat_eq, list_eq, pair_eq, lookup}
use self_hosted_anomaly_dete.Common.Text.{Text, bytes}
use self_hosted_anomaly_dete.Series.{Series, Label, mean}
use self_hosted_anomaly_dete.Store.{Key, Store, Made, new_store, find, update, snapshot, restore}
use self_hosted_anomaly_dete.Store.Count.{new_store-IsSound, update-IsSound}
use self_hosted_anomaly_dete.Store.Placed.{new_store-IsPlaced, update-IsPlaced}
use self_hosted_anomaly_dete.Store.Saved.{reloaded, restore-snapshot}
use self_hosted_anomaly_dete.Detect.{Params}
use self_hosted_anomaly_dete.Drain
use self_hosted_anomaly_dete.Drain.{Token, Miner}
use self_hosted_anomaly_dete.Drain.Mining.{new_miner, add}
use self_hosted_anomaly_dete.Drain.Recency.{new_miner-IsSound, add-IsCapped}
use self_hosted_anomaly_dete.Setup.{Config, Server, buckets, is_refused, make_server, new_server}
use self_hosted_anomaly_dete.Setup.Room.{HasRoom, new_server-HasRoom}
use self_hosted_anomaly_dete.Ingest.Logs.{Setup}
use self_hosted_anomaly_dete.Novelty.{Limits, SigKey, is_recent}
use self_hosted_anomaly_dete.State.{save_fired, save_clusters}
use self_hosted_anomaly_dete.State.Load.{load_clusters}
use self_hosted_anomaly_dete.State.Restart.{load_fired}
use self_hosted_anomaly_dete.State.Spacing.{is_recent-load_fired}
use self_hosted_anomaly_dete.State.Miners.{text_and_size, load_clusters-save_clusters}
use self_hosted_anomaly_dete.Gen.{Metric, metrics, times, batch, remote_write}
use self_hosted_anomaly_dete.Gen.Batches.{flatten, remote_write-times}
use self_hosted_anomaly_dete.Tests.Toy.{toy}

abbrev dcfg : Drain.Config toy
dcfg = record { depth = 4; sim_th = some 1; max_children = 100; max_clusters = 10 }

abbrev config : Config toy
config = record {
  step = 60;
  grace = 30;
  threshold = some 5;
  max_series = 100;
  prom_season = 600;
  prom_seasons = 2;
  prom_lookback = 900;
  prom_rel_floor = some 0;
  absent_ttl = 3600;
  max_log_series = 100;
  log_season = 300;
  log_seasons = 3;
  log_lookback = 590;
  drain = dcfg;
  max_services = 5;
  signature_names = [];
}

abbrev server : Server toy
server = make_server toy (some 0) (some 0) config

new_server-HasRoom_example :
    HasRoom toy (λ xs. xs) (some 1) server.prom_p server.prom.capacity
    × HasRoom toy (λ xs. xs) (some 1) server.log_p server.logs.capacity
unfolding new_server buckets is_refused
new_server-HasRoom_example =
    new_server-HasRoom toy (some 0) (some 0) (λ xs. xs) (some 1) config server refl (omega arith)
      (omega arith)

abbrev hash : Key → ℕ
hash = length

abbrev made : Made ℕ
made = record { labels = []; agg = mean; info = 0 }

abbrev counted : Series toy ℕ → Series toy ℕ
counted s = record s { cnt = 7 }

abbrev empty : Store toy ℕ
empty = new_store toy 4 1

abbrev one : Store toy ℕ
one = (update toy hash empty (1 ∷ []) made counted).0

abbrev of_labels : List Label → ℕ
of_labels = length

restore-snapshot_example :
    ((restore toy
        (λ k. 5)
        (new_store toy one.capacity one.max_series)
        (snapshot toy one)
        of_labels).1
      ≡ one.n)
    × ((k : Key)
        → find toy
            (λ k. 5)
            (restore toy
              (λ k. 5)
              (new_store toy one.capacity one.max_series)
              (snapshot toy one)
              of_labels).0
            k
          ≡ reloaded toy of_labels (find toy hash one k))
restore-snapshot_example =
    restore-snapshot toy of_labels hash (λ k. 5) one
      (update-IsSound toy hash empty (new_store-IsSound toy ℕ 4 1) (1 ∷ []) made counted)
      (update-IsPlaced toy hash empty (new_store-IsSound toy ℕ 4 1).sharded
        (new_store-IsPlaced toy hash 4 1) (1 ∷ []) made counted (λ s. (refl, refl)))

abbrev limits : Limits
limits = record { min_lines = 2; window = 100; ttl = 50; names = [] }

abbrev itoa : ℕ → Text
itoa n = replicate n 49

abbrev sig : SigKey
sig = (bytes "api", bytes "oom")

abbrev fired : List (SigKey × ℕ)
fired = (sig, 1000) ∷ []

is_recent-load_fired_example :
    is_recent limits toy itoa 60000 (lookup sig (load_fired [] (save_fired 50000 fired)))
    ≡ is_recent limits toy itoa 60000 (lookup sig fired)
is_recent-load_fired_example =
    is_recent-load_fired limits toy itoa 50000 60000 sig fired (refl, tt) (omega arith)

abbrev params : Params toy
params = record {
  season = 4;
  seasons = 2;
  lookback = 8;
  threshold = some 4;
  abs_floor = some 0;
  rel_floor = some 0;
  poisson = false;
  scale_every = 1;
}

abbrev setup : Setup toy
setup = record {
  step = 60;
  warmup = 3600;
  max_clusters = 10;
  signatures = [];
  params = params;
  min_count = some 0;
}

abbrev line : List Token
line = (97 ∷ []) ∷ (98 ∷ []) ∷ []

abbrev mined : Miner toy
mined = (add toy (new_miner toy dcfg) line 3).0

abbrev loaded : Miner toy
loaded =
    (load_clusters toy setup false (bytes "api")
      (save_clusters (bytes "api") [] mined.clusters mined.lru) (new_miner toy dcfg, [])).0

load_clusters-save_clusters_example :
    (loaded.lru ≡ mined.lru)
    × ((id : ℕ)
        → text_and_size (lookup id loaded.clusters) ≡ text_and_size (lookup id mined.clusters))
unfolding new_miner
load_clusters-save_clusters_example =
    load_clusters-save_clusters toy setup (bytes "api") [] [] mined dcfg
      (add-IsCapped toy (new_miner toy dcfg) line 3 (new_miner-IsSound toy dcfg)
        (λ h. omega arith)).0

abbrev value : Metric → Text → ℕ → ℕ
value m svc t = t % 7

abbrev services : List Text
services = bytes "auth" ∷ bytes "search" ∷ []

remote_write-times_example :
    (tss : List (List ℕ)) × (remote_write value services 3600 5000 50000
      ≡ map (batch value metrics services) tss)
    × (flatten tss ≡ times 3600 (5000 / 3600 * 3600) 50000)
remote_write-times_example = remote_write-times value services 3600 6 5000 50000 (omega arith) refl
