-- ===== src/Store/Find.antt =====
-- store.go: the shards together are one map from keys to series.
use self_hosted_anomaly_dete.Common.{
  ℕ, ◌+◌, ◌≡◌, refl, sym, ap, true, Option, none, some, List, [], arith, if◌then◌else◌, length,
  get_or, set, get_or-set_self, get_or-set_ne,
}
use native.Mathlib.Nat.{mod-lt}
use self_hosted_anomaly_dete.Common.Keys.{
  nat_eq, list_eq, list_beq, list_beq_iff, insert, lookup-insert,
}
use self_hosted_anomaly_dete.Floats.{Floats}
use self_hosted_anomaly_dete.Series.{Series, new_series}
use self_hosted_anomaly_dete.Store.{
  Key, Store, Made, shard_count, shard_of, find, put, is_full, update_found, update,
}

module _ (fl : Floats) {Info : Type 0} (hash : Key → ℕ) (st : Store fl Info)
    (sharded : length st.shards ≡ shard_count) where
  pub find-put :
      (key j : Key) (s : Series fl Info)
      → find fl hash (put fl hash st key s) j
        ≡ (if list_beq key j then some s else find fl hash st j)
  unfolding find put
  find-put key j s =
      ground (arith, list_beq_iff key j, at_same, at_other, lookup-insert key j s old)
    where
      old : List (Key × Series fl Info)
      old = get_or st.shards (shard_of hash key) []

      new : List (Key × Series fl Info)
      new = insert key s old

      at_same :
          shard_of hash j ≡ shard_of hash key
          → (get_or (set st.shards (shard_of hash key) new) (shard_of hash j) [] ≡ new)
            × (get_or st.shards (shard_of hash j) [] ≡ old)
      at_same p = (
        rw p (
            get_or-set_self st.shards (shard_of hash key) new []
              (rw sharded (mod-lt (hash key) {m = 64} (omega arith)))),
        ap (λ i. get_or st.shards i []) p,
      )

      at_other :
          (shard_of hash j ≡ shard_of hash key → ⊥)
          → get_or (set st.shards (shard_of hash key) new) (shard_of hash j) []
            ≡ get_or st.shards (shard_of hash j) []
      at_other q = get_or-set_ne st.shards new [] (λ e. q (sym e))

  -- `Update` of a store with its 64 shards acts on one map from keys to series: it sets the one
  -- key, runs `fn` on the series that is there or on a new one, and leaves every other key as it
  -- was; a new key in a full store stays absent.
  pub find-update :
      (key j : Key) (mk : Made Info) (fn : Series fl Info → Series fl Info)
      → find fl hash (update fl hash st key mk fn).0 j ≡ (
          if list_beq key j
          then elim (find fl hash st key) [
            | some s ↦ some (fn s)
            | none ↦
                if is_full fl st
                then none
                else some (fn (new_series fl key mk.labels mk.agg st.capacity mk.info))
          ]
          else find fl hash st j)
  unfolding update
  find-update key j mk fn = go (find fl hash st key) refl
    where
      fresh : Series fl Info
      fresh = new_series fl key mk.labels mk.agg st.capacity mk.info

      find_n : (t : Store fl Info) (n : ℕ) → find fl hash (record t { n = n }) j ≡ find fl hash t j
      find_n t n = unfold find in refl

      find_dropped : (n : ℕ) → find fl hash (record st { dropped = n }) j ≡ find fl hash st j
      find_dropped n = unfold find in refl

      none_for : find fl hash st key ≡ none → list_beq key j ≡ true → find fl hash st j ≡ none
      none_for e b = rw ((list_beq_iff key j).0 b) at e

      go :
          (o : Option (Series fl Info))
          → find fl hash st key ≡ o
          → find fl hash (update_found fl hash st key mk fn o).0 j ≡ (
              if list_beq key j
              then elim o [
                | some s ↦ some (fn s)
                | none ↦ if is_full fl st then none else some (fn fresh)
              ]
              else find fl hash st j)
      go (some s) e = find-put key j (fn s)
      go none e = ground (
        arith,
        none_for e,
        find-put key j (fn fresh),
        find_n (put fl hash st key (fn fresh)) (st.n + 1),
        find_dropped (st.dropped + 1),
      )
