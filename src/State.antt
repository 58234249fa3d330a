-- ===== src/State.antt =====
-- anomalyd/internal/server/state.go, `copyState` and the types of a snapshot: what is saved. The
-- gob encoding, the file and the clocks are outside. A template that was made at no known time has
-- 0 for it. Maps are visited in the order of their lists.
pub mod Load
pub mod Restart
pub mod Spacing
pub mod Miners
use self_hosted_anomaly_dete.Common.{
  ℕ, zero, suc, ◌-◌, Option, none, some, List, [], ◌∷◌, ltb, if◌then◌else◌,
}
use self_hosted_anomaly_dete.Common.Keys.{nat_eq, list_eq, pair_eq, lookup}
use self_hosted_anomaly_dete.Common.Text.{Text}
use self_hosted_anomaly_dete.Floats.{Floats}
use self_hosted_anomaly_dete.Store.{Key, Store, Snap, snapshot}
use self_hosted_anomaly_dete.Drain.{Token, Cluster, Miner}
use self_hosted_anomaly_dete.Drain.Pool.{Pool}
use self_hosted_anomaly_dete.Eval.{Info}
use self_hosted_anomaly_dete.Findings.{Finding, Board}
use self_hosted_anomaly_dete.Ingest.Logs.{Meta}
use self_hosted_anomaly_dete.Novelty.{TmplKey, SigKey, sig_every}

-- `clusterSnap`
pub record ClusterSnap : Type 0 where
  pub id : ℕ
  pub tokens : List Token
  pub size : ℕ
  pub levels : List (Text × ℕ)
  pub made_at : ℕ

-- `findingSnap`
pub record FindingSnap (fl : Floats) : Type 0 where
  pub key : Key
  pub finding : Finding fl

-- `stateFile`. `sig_fired` holds the `sigFiredSnap`.
pub record StateFile (fl : Floats) : Type 0 where
  pub version : ℕ
  pub saved_at : ℕ
  pub step : ℕ
  pub prom_cap : ℕ
  pub log_cap : ℕ
  pub prom : List (Snap fl)
  pub logs : List (Snap fl)
  pub templates : List (Text × List ClusterSnap)
  pub log_start : ℕ
  pub findings : List (FindingSnap fl)
  pub sig_fired : List (SigKey × ℕ)

-- What is saved of the server, and what loading changes.
pub record Live (fl : Floats) : Type 0 where
  pub step : ℕ
  pub prom : Store fl (Info fl)
  pub logs : Store fl (Info fl)
  pub pool : Pool fl
  pub tmpl : List (TmplKey × Meta)
  pub log_start : ℕ
  pub board : Board fl
  pub sig_fired : List (SigKey × ℕ)

abbrev pub state_version : ℕ
state_version = 1

-- The signatures' times that are not a day old.
unfoldable pub save_fired : ℕ → List (SigKey × ℕ) → List (SigKey × ℕ)
save_fired now [] = []
save_fired now ((sk, at) ∷ fired) =
    let rest = save_fired now fired in if ltb (now - at) sig_every then (sk, at) ∷ rest else rest

abbrev pub levels_of : Option Meta → List (Text × ℕ)
levels_of none = []
levels_of (some m) = m.levels

abbrev pub made_of : Option Meta → ℕ
made_of none = zero
made_of (some m) = m.made_at

abbrev pub snap_cluster : Option Meta → Cluster → ClusterSnap
snap_cluster m c = record {
  id = c.id;
  tokens = c.tokens;
  size = c.size;
  levels = levels_of m;
  made_at = made_of m;
}

abbrev pub add_cluster :
    Text → List (TmplKey × Meta) → Option Cluster → List ClusterSnap → List ClusterSnap
add_cluster svc tmpl none snaps = snaps
add_cluster svc tmpl (some c) snaps = snap_cluster (lookup (svc, c.id) tmpl) c ∷ snaps

-- The clusters of a miner, most recently used first.
unfoldable pub save_clusters :
    Text → List (TmplKey × Meta) → List (ℕ × Cluster) → List ℕ → List ClusterSnap
save_clusters svc tmpl clusters [] = []
save_clusters svc tmpl clusters (id ∷ lru) =
    add_cluster svc tmpl (lookup id clusters) (save_clusters svc tmpl clusters lru)

abbrev pub add_service :
    Text → List ClusterSnap → List (Text × List ClusterSnap) → List (Text × List ClusterSnap)
add_service svc [] services = services
add_service svc (c ∷ cs) services = (svc, c ∷ cs) ∷ services

module _ (fl : Floats) where
  -- The services with templates.
  unfoldable pub save_miners :
      List (TmplKey × Meta) → List (Token × Miner fl) → List (Text × List ClusterSnap)
  save_miners tmpl [] = []
  save_miners tmpl ((svc, m) ∷ miners) =
      add_service svc (save_clusters svc tmpl m.clusters m.lru) (save_miners tmpl miners)

  unfoldable pub save_findings : List (Key × Finding fl) → List (FindingSnap fl)
  save_findings [] = []
  save_findings ((k, f) ∷ fs) = record { key = k; finding = f } ∷ save_findings fs

  -- `copyState`
  unfoldable pub copy_state : ℕ → Live fl → StateFile fl
  copy_state now sv = record {
    version = state_version;
    saved_at = now;
    step = sv.step;
    prom_cap = sv.prom.capacity;
    log_cap = sv.logs.capacity;
    prom = snapshot fl sv.prom;
    logs = snapshot fl sv.logs;
    templates = save_miners sv.tmpl sv.pool.miners;
    log_start = sv.log_start;
    findings = save_findings sv.board.active;
    sig_fired = save_fired now sv.sig_fired;
  }
