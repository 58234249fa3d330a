-- ===== src/Store.antt =====
-- anomalyd/internal/series/store.go, `Store`: a capped set of series in 64 shards.
-- The calls are modelled one after the other, as the shard locks order those on one key. The hash
-- (`hash/maphash` with a random seed) is a parameter. A shard's map is an association list, whose
-- order stands for Go's unspecified one. `maxSeries` is a natural number: 0 and below mean no cap.
pub mod Find
pub mod Count
pub mod Placed
pub mod Entries
pub mod Saved
use self_hosted_anomaly_dete.Common.{
  ℕ, ◌+◌, ◌-◌, ◌%◌, Bool, true, false, not, ◌&&◌, Option, none, some, List, [], ◌∷◌, ◌++◌, map, ltb,
  leb, ◌==◌, if◌then◌else◌, length, get_or, set, take, drop, replicate,
}
use mathlib.Core.List.{foldl}
use self_hosted_anomaly_dete.Common.Int.{ℤ}
use self_hosted_anomaly_dete.Common.Keys.{nat_eq, list_eq, lookup, insert}
use self_hosted_anomaly_dete.Floats.{Floats}
use self_hosted_anomaly_dete.Series.{Series, Label, Agg, new_series}

abbrev pub Key : Type 0
Key = List ℕ

abbrev pub shard_count : ℕ
shard_count = 64

abbrev pub Shard : (fl : Floats) (Info : Type 0) → Type 0
Shard fl Info = List (Key × Series fl Info)

pub record Store (fl : Floats) (Info : Type 0) : Type 0 where
  pub capacity : ℕ
  pub max_series : ℕ
  pub n : ℕ
  pub dropped : ℕ
  pub shards : List (Shard fl Info)

-- What `mk` returns for a new series.
pub record Made (Info : Type 0) : Type 0 where
  pub labels : List Label
  pub agg : Agg
  pub info : Info

-- `Snap`
pub record Snap (fl : Floats) : Type 0 where
  pub key : Key
  pub labels : List Label
  pub agg : Agg
  pub last_eval : Option ℤ
  pub vals : List fl.F32
  pub head : Option ℕ
  pub acc : fl.F
  pub cnt : ℕ
  pub late : List ℕ

-- `st.sh[maphash.String(st.seed, key)%shards]`
abbrev pub shard_of : (Key → ℕ) → Key → ℕ
shard_of hash key = hash key % shard_count

-- `copy(dst, src)`
unfoldable pub copy {ℓ} : {A : Type ℓ} → List A → List A → List A
copy dst src = take (length dst) src ++ drop (length src) dst

module _ (fl : Floats) {Info : Type 0} where
  unfoldable pub new_store : ℕ → ℕ → Store fl Info
  new_store capacity max_series = record {
    capacity = capacity;
    max_series = max_series;
    n = 0;
    dropped = 0;
    shards = replicate shard_count [];
  }

  -- The first condition of `Update` for a new key.
  unfoldable pub is_full : Store fl Info → Bool
  is_full st = ltb 0 st.max_series && leb st.max_series st.n

  -- The entries of a shard that `drop` keeps.
  unfoldable pub keep : (Series fl Info → Bool) → Shard fl Info → Shard fl Info
  keep drop [] = []
  keep drop ((k, s) ∷ m) = if drop s then keep drop m else (k, s) ∷ keep drop m

  -- `ForEachShard`: every shard once, whatever the workers.
  unfoldable pub for_each_shard : Store fl Info → (Shard fl Info → Shard fl Info) → Store fl Info
  for_each_shard st fn = record st { shards = map fn st.shards }

  abbrev pub total : List (Shard fl Info) → ℕ
  total [] = 0
  total (m ∷ ms) = length m + total ms

  -- `Delete`: the store, and how many series went.
  unfoldable pub delete : Store fl Info → (Series fl Info → Bool) → Store fl Info × ℕ
  unfolding keep for_each_shard
  delete st drop =
      let st' = for_each_shard st (keep drop) in
      let removed = total st.shards - total st'.shards in
      (record st' { n = st.n - removed }, removed)

  unfoldable pub snap_of : Key × Series fl Info → Snap fl
  snap_of (k, s) = record {
    key = s.key;
    labels = s.labels;
    agg = s.agg;
    last_eval = s.last_eval;
    vals = s.vals;
    head = s.head;
    acc = s.acc;
    cnt = s.cnt;
    late = s.late;
  }

  abbrev pub entries : List (Shard fl Info) → Shard fl Info
  entries [] = []
  entries (m ∷ ms) = m ++ entries ms

  unfoldable pub snapshot : Store fl Info → List (Snap fl)
  snapshot st = map snap_of (entries st.shards)

  -- What `Restore` does to the series of a snapshot.
  unfoldable pub load_snap : Snap fl → Series fl Info → Series fl Info
  load_snap sn s = record s {
    vals = copy s.vals sn.vals;
    head = sn.head;
    acc = sn.acc;
    cnt = sn.cnt;
    late = sn.late;
    last_eval = sn.last_eval;
  }

  module _ (hash : Key → ℕ) where
    unfoldable pub find : Store fl Info → Key → Option (Series fl Info)
    find st key = lookup key (get_or st.shards (shard_of hash key) [])

    unfoldable pub put : Store fl Info → Key → Series fl Info → Store fl Info
    put st key s = record st {
      shards =
          set st.shards (shard_of hash key)
            (insert key s (get_or st.shards (shard_of hash key) []));
    }

    -- `Update` and `UpdateBytes`, which differ in how the key is held in memory, from the lookup
    -- on.
    unfoldable pub update_found :
        Store fl Info
        → Key
        → Made Info
        → (Series fl Info → Series fl Info)
        → Option (Series fl Info)
        → Store fl Info × Bool
    update_found st key mk fn (some s) = (put st key (fn s), true)
    update_found st key mk fn none =
        if is_full st then (record st { dropped = st.dropped + 1 }, false) else (
          record (put st key (fn (new_series fl key mk.labels mk.agg st.capacity mk.info))) {
            n = st.n + 1;
          },
          true,
        )

    unfoldable pub update :
        Store fl Info → Key → Made Info → (Series fl Info → Series fl Info) → Store fl Info × Bool
    unfolding update_found
    update st key mk fn = update_found st key mk fn (find st key)

    -- `Lookup`
    unfoldable pub lookup_with :
        Store fl Info → Key → (Series fl Info → Series fl Info) → Store fl Info × Bool
    lookup_with st key fn = elim (find st key) [
      | none ↦ (st, false)
      | some s ↦ (put st key (fn s), true)
    ]

    -- The body of the loop of `Restore`, over the store and the count of what was loaded.
    unfoldable pub restore_one :
        (List Label → Info) → Store fl Info × ℕ → Snap fl → Store fl Info × ℕ
    restore_one info (st, loaded) sn =
        let made : Made Info = record { labels = sn.labels; agg = sn.agg; info = info sn.labels } in
        let (st', ran) = update st sn.key made (load_snap sn) in
        if length sn.vals == st.capacity
        then (st', if ran then loaded + 1 else loaded)
        else (st, loaded)

    unfoldable pub restore :
        Store fl Info → List (Snap fl) → (List Label → Info) → Store fl Info × ℕ
    restore st snaps info = foldl (restore_one info) (st, 0) snaps
