-- ===== src/State/Load.antt =====
-- anomalyd/internal/server/state.go, `load` and `validSnaps`: the templates and the series of a
-- snapshot. `valid` is `utf8.ValidString`.
use self_hosted_anomaly_dete.Common.{
  ℕ, zero, suc, ◌-◌, ◌^◌, Bool, true, false, not, ◌&&◌, ◌||◌, Option, none, some, List, [], ◌∷◌,
  ◌++◌, ltb, ◌==◌, if◌then◌else◌,
}
use self_hosted_anomaly_dete.Common.Int.{ℤ, pos, negsuc, ◌-ℤ◌}
use self_hosted_anomaly_dete.Common.Keys.{
  nat_eq, list_eq, list_beq, pair_eq, lookup, insert, has_key,
}
use self_hosted_anomaly_dete.Common.Text.{Text}
use self_hosted_anomaly_dete.Floats.{Floats}
use self_hosted_anomaly_dete.Series.{Series, Label, at}
use self_hosted_anomaly_dete.Store.{Key, Shard, Snap, restore, for_each_shard}
use self_hosted_anomaly_dete.Drain.{Miner}
use self_hosted_anomaly_dete.Drain.Mining
use self_hosted_anomaly_dete.Drain.Mining.{add}
use self_hosted_anomaly_dete.Drain.Pool.{Pool, get, overflow_key}
use self_hosted_anomaly_dete.Logparse.Levels.{unknown}
use self_hosted_anomaly_dete.Agent.Lines.{miner_at, template_at}
use self_hosted_anomaly_dete.Eval.{Info}
use self_hosted_anomaly_dete.Ingest.{prom_info, log_info, add64}
use self_hosted_anomaly_dete.Ingest.Logs.{Meta, Setup, classify, number_or}
use self_hosted_anomaly_dete.Novelty.{TmplKey}
use self_hosted_anomaly_dete.State.{ClusterSnap, StateFile, Live}

-- `a < b`, on strings
unfoldable pub lt_text : Text → Text → Bool
lt_text [] [] = false
lt_text [] (d ∷ b) = true
lt_text (c ∷ a) [] = false
lt_text (c ∷ a) (d ∷ b) = let rest = lt_text a b in ltb c d || c == d && rest

unfoldable pub put_sorted : Text → List Text → List Text
put_sorted a [] = a ∷ []
put_sorted a (b ∷ bs) = let rest = put_sorted a bs in if lt_text b a then b ∷ rest else a ∷ b ∷ bs

unfoldable pub is_in : Text → List Text → Bool
is_in a [] = false
is_in a (b ∷ bs) = let rest = is_in a bs in list_beq b a || rest

unfoldable pub without : Text → List Text → List Text
without a [] = []
without a (b ∷ bs) = let rest = without a bs in if list_beq b a then bs else b ∷ rest

-- `slices.Sorted(maps.Keys(…))`
unfoldable pub sorted_keys : {V : Type 0} → List (Text × V) → List Text
sorted_keys [] = []
sorted_keys ((k, v) ∷ m) = put_sorted k (sorted_keys m)

-- "_other" last
unfoldable pub service_order : {V : Type 0} → List (Text × V) → List Text
service_order m =
    let svcs = sorted_keys m in
    if is_in overflow_key svcs then without overflow_key svcs ++ (overflow_key ∷ []) else svcs

abbrev pub snaps_of : Option (List ClusterSnap) → List ClusterSnap
snaps_of none = []
snaps_of (some cs) = cs

unfoldable pub add_levels : List (Text × ℕ) → List (Text × ℕ) → List (Text × ℕ)
add_levels levels [] = levels
add_levels levels ((l, n) ∷ more) =
    add_levels (insert l (add64 (number_or (lookup l levels)) n) levels) more

abbrev pub is_earlier : ℕ → ℕ → Bool
is_earlier saved old = not (saved == zero) && (old == zero || ltb saved old)

-- The metadata of a cluster that was loaded.
unfoldable pub merge_meta : ClusterSnap → Option Meta → Meta
merge_meta c none = record {
  levels = c.levels;
  made_at = c.made_at;
  novel = false;
  count = zero;
  fired = none;
  inferred = unknown;
  sigs = [];
  sig_lines = zero;
}
merge_meta c (some old) = record old {
  levels = add_levels old.levels c.levels;
  made_at = if is_earlier c.made_at old.made_at then c.made_at else old.made_at;
}

-- `math.MinInt64`
abbrev pub no_head : ℤ
no_head = negsuc (2 ^ 63 - 1)

abbrev pub head_of : Option ℕ → ℤ
head_of none = no_head
head_of (some h) = pos h

module _ (fl : Floats) (cfg : Setup fl) where
  -- The miner and the metadata, while a service's clusters are loaded.
  abbrev pub Loading : Type 0
  Loading = Miner fl × List (TmplKey × Meta)

  abbrev pub with_meta : Text → ℕ → ClusterSnap → List (TmplKey × Meta) → List (TmplKey × Meta)
  with_meta used id c tmpl = insert (used, id) (merge_meta c (lookup (used, id) tmpl)) tmpl

  -- The body of the loop over the clusters of a service.
  unfoldable pub load_cluster : Bool → Text → ClusterSnap → Loading → Loading
  load_cluster folded used c (m, tmpl) =
      if folded || has_key c.id m.clusters
      then (let (m', id, ch) = add fl m c.tokens c.size in (m', with_meta used id c tmpl))
      else (Mining.restore fl m c.id c.tokens c.size, with_meta used c.id c tmpl)

  -- That loop, from the last to the first.
  unfoldable pub load_clusters : Bool → Text → List ClusterSnap → Loading → Loading
  load_clusters folded used [] st = st
  load_clusters folded used (c ∷ cs) st =
      load_cluster folded used c (load_clusters folded used cs st)

  abbrev pub classify_one :
      Text → Miner fl → ℕ → Option Meta → List (TmplKey × Meta) → List (TmplKey × Meta)
  classify_one used m id none tmpl = tmpl
  classify_one used m id (some tm) tmpl =
      insert (used, id) (classify fl cfg (template_at m.clusters id) tm) tmpl

  unfoldable pub classify_all :
      Text → Miner fl → List ℕ → List (TmplKey × Meta) → List (TmplKey × Meta)
  classify_all used m [] tmpl = tmpl
  classify_all used m (id ∷ lru) tmpl =
      classify_all used m lru (classify_one used m id (lookup (used, id) tmpl) tmpl)

  -- The body of the loop over the services; `clean` is `cleanService`.
  unfoldable pub load_service :
      (Text → Text)
      → List (Text × List ClusterSnap)
      → Pool fl × List (TmplKey × Meta)
      → Text
      → Pool fl × List (TmplKey × Meta)
  load_service clean templates (pool, tmpl) svc =
      let (pool', used) = get fl pool (clean svc) in
      let (m, tmpl') =
        load_clusters (not (list_beq used svc)) used (snaps_of (lookup svc templates))
          (miner_at fl pool' used, tmpl) in
      (record pool' { miners = insert used m pool'.miners }, classify_all used m m.lru tmpl')

  unfoldable pub is_valid_snap : (Text → Bool) → List Label → Bool
  is_valid_snap valid [] = true
  is_valid_snap valid (l ∷ ls) = let rest = is_valid_snap valid ls in valid l.value && rest

  -- `validSnaps`
  unfoldable pub valid_snaps : (Text → Bool) → List (Snap fl) → List (Snap fl)
  valid_snaps valid [] = []
  valid_snaps valid (sn ∷ snaps) =
      let rest = valid_snaps valid snaps in
      if is_valid_snap valid sn.labels then sn ∷ rest else rest

  -- The newest of `n` buckets up to `b` with a value, or the one before them.
  unfoldable pub last_value : Series fl (Info fl) → ℤ → ℕ → ℤ
  last_value s b zero = b
  last_value s b (suc n) =
      let rest = last_value s (b -ℤ pos 1) n in if fl.is_nan (at fl s b) then rest else b

  abbrev pub with_last : ℤ → Series fl (Info fl) → Series fl (Info fl)
  with_last b s = let info = s.info in record s { info = record info { last_data = b } }

  abbrev pub find_last : ℕ → Option ℕ → Series fl (Info fl) → Series fl (Info fl)
  find_last capacity none s = s
  find_last capacity (some h) s = with_last (last_value s (pos h -ℤ pos 1) (capacity - 1)) s

  unfoldable pub map_shard :
      (Series fl (Info fl) → Series fl (Info fl)) → Shard fl (Info fl) → Shard fl (Info fl)
  map_shard fn [] = []
  map_shard fn ((k, s) ∷ m) = (k, fn s) ∷ map_shard fn m

  -- The series of a snapshot with the same step.
  unfoldable pub load_series :
      (Key → ℕ) → (List Label → Info fl) → (List Label → Info fl) → StateFile fl → Live fl → Live fl
  load_series hash prom_info log_info st sv =
      let prom =
        if st.prom_cap == sv.prom.capacity
        then (restore fl hash sv.prom st.prom prom_info).0
        else sv.prom in
      let logs =
        if st.log_cap == sv.logs.capacity
        then (restore fl hash sv.logs st.logs log_info).0
        else sv.logs in
      record sv {
        prom = for_each_shard fl prom (map_shard (λ s. find_last prom.capacity s.head s));
        logs = for_each_shard fl logs (map_shard (λ s. with_last (head_of s.head) s));
      }
