-- ===== src/Drain/Recency.antt =====
-- drain.go: the clusters, the list of their use, and the cap.
use self_hosted_anomaly_dete.Common.{
  ℕ, zero, suc, ◌+◌, ◌≤◌, ◌<◌, ◌≡◌, refl, sym, ap, ◌∙◌, Bool, true, false, ◌&&◌, Option, none, some,
  List, [], ◌∷◌, arith, ltb, length, Option-cases, inl, inr, if_both,
}
use mathlib.Core.List.{get_last?}
use self_hosted_anomaly_dete.Common.Int.{pos}
use self_hosted_anomaly_dete.Common.Keys.{
  nat_eq, lookup, insert, lookup-insert, lookup-delete, insert-IsMap, delete-IsMap, IsMap,
  length-insert,
}
use self_hosted_anomaly_dete.Floats.{Floats}
use self_hosted_anomaly_dete.Drain.{Token, Config, Cluster, Miner, touch, generalise, node_at}
use self_hosted_anomaly_dete.Drain.Mining.{
  insert_cluster, drop_cluster, evict, add_new, add_old, new_miner, seq_distance, add_found, add,
  search, Best, better, best_of, no_best, search_leaf,
}
use self_hosted_anomaly_dete.Drain.Uses.{
  count-remove, present, length-touch, last-ne-none, count-last, length-delete, count-touch,
  length-remove, count,
}

pub record IsSound {fl : Floats} (m : Miner fl) : Type 0 where
  pub distinct : IsMap m.clusters
  pub listed : (id : ℕ) → count id m.lru ≡ present (lookup id m.clusters)
  pub fresh : (id : ℕ) → m.next_id < id → lookup id m.clusters ≡ none
  pub keyed : (id : ℕ) (c : Cluster) → lookup id m.clusters ≡ some c → c.id ≡ id
  pub sizes : length m.lru ≡ length m.clusters

module _ (fl : Floats) where
  -- `m'` is `m` with the cluster `c` stored under `id` and touched.
  record Stored (m m' : Miner fl) (id : ℕ) (c : Cluster) : Type 0 where
    clusters : m'.clusters ≡ insert id c m.clusters
    lru : m'.lru ≡ touch id m.lru
    named : c.id ≡ id
    covers : (id ≤ m'.next_id) × (m.next_id ≤ m'.next_id)

  present-le : {A : Type 0} (o : Option A) → present o ≤ 1
  present-le none = omega arith
  present-le (some a) = omega arith

  Stored-IsSound :
      (m m' : Miner fl) (id : ℕ) (c : Cluster) → IsSound m → Stored m m' id c → IsSound m'
  Stored-IsSound m m' id c h st = record {
    distinct = rw st.clusters (insert-IsMap id c m.clusters h.distinct);
    listed = λ j. listed j;
    fresh = λ j k. fresh j k;
    keyed = λ j d e. keyed j d e;
    sizes = sizes;
  }
    where
      once : count id m.lru ≤ 1
      once = omega (arith, h.listed id, present-le (lookup id m.clusters))

      listed : (j : ℕ) → count j m'.lru ≡ present (lookup j m'.clusters)
      listed j =
          rw (st.lru, st.clusters)
            (ground
              (arith, count-touch id j m.lru once, lookup-insert id j c m.clusters, h.listed j))

      fresh : (j : ℕ) → m'.next_id < j → lookup j m'.clusters ≡ none
      fresh j k =
          rw st.clusters (ground (arith, lookup-insert id j c m.clusters, h.fresh j, st.covers))

      keyed : (j : ℕ) (d : Cluster) → lookup j m'.clusters ≡ some d → d.id ≡ j
      keyed j d e =
          ground (
            arith,
            lookup-insert id j c m.clusters,
            ap (lookup j) st.clusters,
            h.keyed j d,
            st.named,
          )

      sizes : length m'.lru ≡ length m'.clusters
      sizes =
          rw (st.lru, st.clusters)
            (ground (
              arith,
              length-touch id m.lru once,
              length-insert id c m.clusters,
              h.listed id,
              h.sizes,
            ))

  drop_cluster-IsSound :
      (m : Miner fl) (id : ℕ)
      → IsSound m
      → 0 < count id m.lru
      → IsSound (drop_cluster fl m id)
        × (length (drop_cluster fl m id).clusters + 1 ≡ length m.clusters)
  unfolding drop_cluster
  drop_cluster-IsSound m id h k = (
    record {
      distinct = delete-IsMap id m.clusters h.distinct;
      listed = λ j.
          ground
            (arith, count-remove id j m.lru, lookup-delete id j m.clusters h.distinct, h.listed j);
      fresh = λ j k. ground (arith, lookup-delete id j m.clusters h.distinct, h.fresh j);
      keyed = λ j d e. ground (arith, lookup-delete id j m.clusters h.distinct, h.keyed j d);
      sizes =
          ground (arith, length-remove id m.lru, length-delete id m.clusters, h.listed id, h.sizes);
    },
    ground (arith, length-delete id m.clusters, h.listed id),
  )

  -- A sound miner of at most `cap` clusters, where 0 is no cap.
  abbrev pub IsCapped : ℕ → Miner fl → Type 0
  IsCapped cap m = IsSound m × (0 < cap → length m.clusters ≤ cap)

  evict-IsCapped :
      (fuel : ℕ) (m : Miner fl)
      → IsSound m
      → length m.clusters ≤ fuel
      → IsCapped m.cfg.max_clusters (evict fl fuel m)
  unfolding evict
  evict-IsCapped zero m h k = (h, λ q. omega arith)
  evict-IsCapped (suc fuel) m h k =
      go _ _ refl refl (λ id a b. evict-IsCapped fuel (drop_cluster fl m id) a b)
    where
      cap : ℕ
      cap = m.cfg.max_clusters

      go :
          (b : Bool) (o : Option ℕ)
          → (ltb 0 cap && ltb cap (length m.clusters)) ≡ b
          → get_last? m.lru ≡ o
          → ((id : ℕ)
              → IsSound (drop_cluster fl m id)
              → length (drop_cluster fl m id).clusters ≤ fuel
              → IsCapped
                  (drop_cluster fl m id).cfg.max_clusters
                  (evict fl fuel (drop_cluster fl m id)))
          → IsCapped cap (elim b [
            | false ↦ m
            | true ↦ elim o [ none ↦ m | some id ↦ evict fl fuel (drop_cluster fl m id) ]
          ])
      go false o p q ih = (h, λ r. ground arith)
      go true none p q ih = absurd (last-ne-none m.lru (ground (arith, h.sizes)) q)
      go true (some id) p q ih =
          let (sound, fewer) = drop_cluster-IsSound m id h (count-last m.lru id q) in
          unfold drop_cluster in ih id sound (omega arith)

  -- What is known of the cluster that `search` returns.
  abbrev FromMap : List (ℕ × Cluster) → Best fl → Type 0
  FromMap clusters best =
      (c : Cluster) → best.cluster ≡ some c → (id : ℕ) × (lookup id clusters ≡ some c)

  better-FromMap :
      (clusters : List (ℕ × Cluster)) (toks : List Token) (best : Best fl) (id : ℕ) (c : Cluster)
      → lookup id clusters ≡ some c
      → FromMap clusters best
      → FromMap clusters (better fl toks best c)
  unfolding better
  better-FromMap clusters toks best id c e h =
      if_both (FromMap clusters) _
        (chosen
          (record {
            cluster = some c;
            sim = (seq_distance fl c.tokens toks).0;
            params = pos (seq_distance fl c.tokens toks).1;
          })
          refl)
        h
    where
      chosen : (b : Best fl) → b.cluster ≡ some c → FromMap clusters b
      chosen b p d q = (id, e ∙ sym p ∙ q)

  best_of-FromMap :
      (clusters : List (ℕ × Cluster)) (toks : List Token) (ids : List ℕ) (best : Best fl)
      → FromMap clusters best
      → FromMap clusters (best_of fl clusters toks best ids)
  unfolding best_of
  best_of-FromMap clusters toks [] best h = h
  best_of-FromMap clusters toks (id ∷ ids) best h =
      best_of-FromMap clusters toks ids _ (go (lookup id clusters) refl)
    where
      go :
          (o : Option Cluster)
          → lookup id clusters ≡ o
          → FromMap clusters (elim o [ none ↦ best | some c ↦ better fl toks best c ])
      go none e = h
      go (some c) e = better-FromMap clusters toks best id c e h

  pub search-found :
      (m : Miner fl) (toks : List Token) (c : Cluster)
      → search fl m toks ≡ some c
      → (id : ℕ) × (lookup id m.clusters ≡ some c)
  unfolding search
  search-found m toks c e = elim (Option-cases (search_leaf fl m toks)) [
    | inl n ↦ absurd (ground arith)
    | inr (leaf, l) ↦
        best_of-FromMap m.clusters toks (node_at m.nodes leaf).clusters (no_best fl)
          (λ d q. absurd (ground arith)) c (ground arith)
  ]

  module _ (m : Miner fl) (toks : List Token) (n : ℕ) (h : IsSound m) where
    add_new-IsCapped : IsCapped m.cfg.max_clusters (add_new fl m toks n).0
    unfolding add_new insert_cluster
    add_new-IsCapped =
        evict-IsCapped _ _
          (Stored-IsSound m _ (m.next_id + 1) _ h
            (record { clusters = refl; lru = refl; named = refl; covers = omega arith }))
          (omega arith)

    add_old-IsCapped :
        (c : Cluster)
        → lookup c.id m.clusters ≡ some c
        → (0 < m.cfg.max_clusters → length m.clusters ≤ m.cfg.max_clusters)
        → IsCapped m.cfg.max_clusters (add_old fl m c toks n).0
    unfolding add_old
    add_old-IsCapped c e within = (
      Stored-IsSound m _ c.id _ h (record {
        clusters = refl;
        lru = refl;
        named = refl;
        covers = (ground (arith, h.fresh c.id), omega arith);
      }),
      λ k. ground (
        arith,
        within k,
        length-insert c.id (record c { tokens = generalise c.tokens toks; size = c.size + n })
            m.clusters,
      ),
    )

    -- `Add` on a sound miner within its cap leaves a sound one within its cap, whatever the line
    -- and its weight: the list of use holds every cluster once, ids are kept apart, and `evict`
    -- returns with no more than `MaxClusters` templates, where that is not 0.
    pub add-IsCapped :
        (0 < m.cfg.max_clusters → length m.clusters ≤ m.cfg.max_clusters)
        → IsCapped m.cfg.max_clusters (add fl m toks n).0
    unfolding add
    add-IsCapped within = go (search fl m toks) refl
      where
        go :
            (o : Option Cluster)
            → search fl m toks ≡ o
            → IsCapped m.cfg.max_clusters (add_found fl m toks n o).0
        go none e = add_new-IsCapped
        go (some c) e =
            let (id, found) = search-found m toks c e in
            add_old-IsCapped c (ap (λ i. lookup i m.clusters) (h.keyed id c found) ∙ found) within

  -- A new miner is sound.
  pub new_miner-IsSound : (cfg : Config fl) → IsSound (new_miner fl cfg)
  unfolding new_miner
  new_miner-IsSound cfg = record {
    distinct = tt;
    listed = λ id. refl;
    fresh = λ id k. refl;
    keyed = λ id c e. absurd (ground arith);
    sizes = refl;
  }
