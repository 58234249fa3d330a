-- ===== src/Drain/Mining.antt =====
-- anomalyd/internal/drain/drain.go: the operations of `Miner`.
use self_hosted_anomaly_dete.Common.{
  ℕ, zero, suc, ◌+◌, ◌-◌, max, Bool, true, false, ◌&&◌, ◌||◌, Option, none, some, List, [], ◌∷◌,
  ◌++◌, ltb, leb, ◌==◌, if◌then◌else◌, length, set,
}
use mathlib.Core.List.{get_last?}
use self_hosted_anomaly_dete.Common.Int.{ℤ, pos, negsuc, ltb_ℤ}
use self_hosted_anomaly_dete.Common.Keys.{nat_eq, list_eq, lookup, insert, delete}
use self_hosted_anomaly_dete.Floats.{Floats}
use self_hosted_anomaly_dete.Drain.{
  Token, param, Config, Cluster, Node, Change, Miner, empty_node, node_at, agreeing, params,
  generalise, change, has_digit, add_child, remove, touch, created,
}

module _ (fl : Floats) where
  open fl use {F, of_ℕ, neg_F, ◌/F◌, lt_F, le_F, eq_F}

  unfoldable pub new_miner : Config fl → Miner fl
  new_miner cfg =
      let depth = max cfg.depth 3 in
      record {
        cfg = record cfg { depth = depth; max_children = max cfg.max_children 2 };
        max_node_depth = depth - 2;
        by_len = [];
        nodes = [];
        clusters = [];
        next_id = 0;
        lru = [];
        evicted = 0;
      }

  unfoldable pub seq_distance : List Token → List Token → F × ℕ
  seq_distance [] toks = (of_ℕ 1, 0)
  seq_distance (t ∷ tpl) toks =
      (◌/F◌ (of_ℕ (agreeing (t ∷ tpl) toks)) (of_ℕ (length (t ∷ tpl))), params (t ∷ tpl))

  -- The child that a search goes on with: the token's own, or the parameter's.
  unfoldable pub next_child : List Node → ℕ → Token → Option ℕ
  next_child nodes cur t = elim (lookup t (node_at nodes cur).children) [
    | some next ↦ some next
    | none ↦ lookup param (node_at nodes cur).children
  ]

  -- The first loop of `search`, at `depth` for a line of `n` tokens.
  unfoldable pub descend : List Node → ℕ → ℕ → ℕ → ℕ → List Token → Option ℕ
  descend nodes max_depth n cur depth [] = some cur
  descend nodes max_depth n cur depth (t ∷ toks) =
      if leb max_depth depth || (depth == n) then some cur else elim (next_child nodes cur t) [
        | none ↦ none
        | some next ↦ descend nodes max_depth n next (depth + 1) toks
      ]

  -- The best cluster so far, its similarity and its parameters.
  pub record Best : Type 0 where
    pub cluster : Option Cluster
    pub sim : F
    pub params : ℤ

  unfoldable pub better : List Token → Best → Cluster → Best
  better toks best c =
      let (sim, params) = seq_distance c.tokens toks in
      if lt_F best.sim sim || (eq_F sim best.sim && ltb_ℤ best.params (pos params))
      then record { cluster = some c; sim = sim; params = pos params }
      else best

  -- The second loop of `search`.
  unfoldable pub best_of : List (ℕ × Cluster) → List Token → Best → List ℕ → Best
  best_of clusters toks best [] = best
  best_of clusters toks best (id ∷ ids) =
      best_of clusters toks
        (elim (lookup id clusters) [ none ↦ best | some c ↦ better toks best c ]) ids

  abbrev pub no_best : Best
  no_best = record { cluster = none; sim = neg_F (of_ℕ 1); params = negsuc 0 }

  abbrev pub leaf_best : Miner fl → List Token → ℕ → Best
  leaf_best m toks leaf = best_of m.clusters toks no_best (node_at m.nodes leaf).clusters

  abbrev pub good_enough : Miner fl → Best → Option Cluster
  good_enough m best = if le_F m.cfg.sim_th best.sim then best.cluster else none

  abbrev pub search_leaf : Miner fl → List Token → Option ℕ
  search_leaf m toks = elim (lookup (length toks) m.by_len) [
    | none ↦ none
    | some root ↦ descend m.nodes m.max_node_depth (length toks) root 1 toks
  ]

  unfoldable pub search : Miner fl → List Token → Option Cluster
  search m toks = elim (search_leaf m toks) [
    | none ↦ none
    | some leaf ↦ good_enough m (leaf_best m toks leaf)
  ]

  -- `child`, after the lookup of the token itself failed.
  unfoldable pub child : ℕ → List Node → ℕ → Token → List Node × ℕ
  child max_children nodes cur t =
      let children = (node_at nodes cur).children in
      let shared : List Node × ℕ = elim (lookup param children) [
        | some w ↦ (nodes, w)
        | none ↦ add_child nodes cur param
      ] in
      let k = length children + 1 in
      if has_digit t then shared else elim (lookup param children) [
        | some w ↦ if ltb (length children) max_children then add_child nodes cur t else (nodes, w)
        | none ↦ if ltb k max_children then add_child nodes cur t else add_child nodes cur param
      ]

  unfoldable pub child_or_new : ℕ → List Node → ℕ → Token → List Node × ℕ
  child_or_new max_children nodes cur t = elim (lookup t (node_at nodes cur).children) [
    | some next ↦ (nodes, next)
    | none ↦ child max_children nodes cur t
  ]

  -- The loop of `insert`: the nodes, and the leaf.
  unfoldable pub grow : ℕ → ℕ → ℕ → List Node → ℕ → ℕ → List Token → List Node × ℕ
  grow max_children max_depth n nodes cur depth [] = (nodes, cur)
  grow max_children max_depth n nodes cur depth (t ∷ toks) =
      let (nodes', next) = child_or_new max_children nodes cur t in
      let rest = grow max_children max_depth n nodes' next (depth + 1) toks in
      if leb max_depth depth || leb n depth then (nodes, cur) else rest

  -- `m.byLen[n]`, made where it is missing: the nodes, the index and the root.
  unfoldable pub root_for : Miner fl → ℕ → List Node × List (ℕ × ℕ) × ℕ
  root_for m n = elim (lookup n m.by_len) [
    | some root ↦ (m.nodes, m.by_len, root)
    | none ↦ (m.nodes ++ (empty_node ∷ []), insert n (length m.nodes) m.by_len, length m.nodes)
  ]

  abbrev pub add_to_leaf : List Node → ℕ → ℕ → List Node
  add_to_leaf nodes leaf id =
      let node = node_at nodes leaf in
      set nodes leaf (record node { clusters = node.clusters ++ (id ∷ []) })

  -- `m.clusters[c.ID] = c; m.insert(c)`, for a new cluster. `grow` stops at once for no tokens.
  unfoldable pub insert_cluster : Miner fl → ℕ → List Token → ℕ → Miner fl
  insert_cluster m id toks size =
      let n = length toks in
      let (nodes, by_len, root) = root_for m n in
      let (nodes', leaf) = grow m.cfg.max_children m.max_node_depth n nodes root 1 toks in
      record m {
        by_len = by_len;
        nodes = add_to_leaf nodes' leaf id;
        clusters =
            insert id (record { id = id; tokens = toks; size = size; leaf = leaf }) m.clusters;
      }

  abbrev pub touch_cluster : ℕ → Miner fl → Miner fl
  touch_cluster id m = record m { lru = touch id m.lru }

  -- The body of the loop of `evict`, on the least recently used cluster `c`.
  unfoldable pub drop_cluster : Miner fl → ℕ → Miner fl
  drop_cluster m id =
      let leaf : ℕ = elim (lookup id m.clusters) [ none ↦ length m.nodes | some c ↦ c.leaf ] in
      let node = node_at m.nodes leaf in
      record m {
        lru = remove id m.lru;
        clusters = delete id m.clusters;
        nodes = set m.nodes leaf (record node { clusters = remove id node.clusters });
        evicted = m.evicted + 1;
      }

  -- `evict`. An empty list with clusters left would be a nil dereference.
  unfoldable pub evict : ℕ → Miner fl → Miner fl
  evict zero m = m
  evict (suc fuel) m =
      elim (ltb 0 m.cfg.max_clusters && ltb m.cfg.max_clusters (length m.clusters)) [
        | false ↦ m
        | true ↦ elim (get_last? m.lru) [ none ↦ m | some id ↦ evict fuel (drop_cluster m id) ]
      ]

  -- The rest of `Add` for a line with no template: the new cluster's id is returned.
  unfoldable pub add_new : Miner fl → List Token → ℕ → Miner fl × ℕ × Change
  add_new m toks n =
      let id = m.next_id + 1 in
      let m' = touch_cluster id (insert_cluster (record m { next_id = id }) id toks n) in
      (evict (length m'.clusters) m', id, created)

  -- The rest of `Add` for a line of the template `c`.
  unfoldable pub add_old : Miner fl → Cluster → List Token → ℕ → Miner fl × ℕ × Change
  add_old m c toks n =
      let c' = record c { tokens = generalise c.tokens toks; size = c.size + n } in
      (
        touch_cluster c.id (record m { clusters = insert c.id c' m.clusters }),
        c.id,
        change c.tokens toks,
      )

  unfoldable pub add_found : Miner fl → List Token → ℕ → Option Cluster → Miner fl × ℕ × Change
  add_found m toks n none = add_new m toks n
  add_found m toks n (some c) = add_old m c toks n

  -- `Add`
  unfoldable pub add : Miner fl → List Token → ℕ → Miner fl × ℕ × Change
  unfolding add_found
  add m toks n = add_found m toks n (search m toks)

  -- `Hit`
  unfoldable pub hit : Miner fl → ℕ → ℕ → Miner fl × Bool
  hit m id n = elim (lookup id m.clusters) [
    | none ↦ (m, false)
    | some c ↦ (
      touch_cluster id
          (record m { clusters = insert id (record c { size = c.size + n }) m.clusters }),
      true,
    )
  ]

  -- `Restore`
  unfoldable pub restore : Miner fl → ℕ → List Token → ℕ → Miner fl
  restore m id toks size =
      let m' = touch_cluster id (insert_cluster m id toks size) in
      record m' { next_id = max m'.next_id id }
