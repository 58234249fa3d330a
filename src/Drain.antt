-- ===== src/Drain.antt =====
-- anomalyd/internal/drain/drain.go: `Miner`, one instance of the Drain template miner. A token is
-- the list of its bytes. A tree node is an entry of `nodes`, and a pointer to a node is its place
-- there, so that a node that is changed is changed for everyone. A pointer to a cluster is its id.
-- The linked list `head … tail` is the list `lru` of the ids, most recently used first. The order
-- of a similarity is that of the machine's floats, a parameter. `MaxClusters` is a natural number:
-- 0 and below mean no cap.
pub mod Templates
pub mod Mining
pub mod Uses
pub mod Recency
pub mod Mask
pub mod Words
pub mod Pool
use self_hosted_anomaly_dete.Common.{
  ℕ, zero, suc, ◌+◌, ◌-◌, max, Bool, true, false, not, ◌&&◌, ◌||◌, Option, none, some, List, [],
  ◌∷◌, ◌++◌, ltb, leb, ◌==◌, if◌then◌else◌, length, get_or, set,
}
use mathlib.Core.List.{get_last?}
use self_hosted_anomaly_dete.Common.Int.{ℤ, pos, negsuc, ltb_ℤ}
use self_hosted_anomaly_dete.Common.Keys.{nat_eq, list_eq, list_beq, lookup, insert, delete}
use self_hosted_anomaly_dete.Floats.{Floats}

abbrev pub Token : Type 0
Token = List ℕ

-- `<*>`
abbrev pub param : Token
param = b'<' ∷ b'*' ∷ b'>' ∷ []

pub record Config (fl : Floats) : Type 0 where
  pub depth : ℕ
  pub sim_th : fl.F
  pub max_children : ℕ
  pub max_clusters : ℕ

pub record Cluster : Type 0 where
  pub id : ℕ
  pub tokens : List Token
  pub size : ℕ
  pub leaf : ℕ

pub record Node : Type 0 where
  pub children : List (Token × ℕ)
  pub clusters : List ℕ

pub data Change : Type 0 where
  unchanged created updated : Change

pub record Miner (fl : Floats) : Type 0 where
  pub cfg : Config fl
  pub max_node_depth : ℕ
  pub by_len : List (ℕ × ℕ)
  pub nodes : List Node
  pub clusters : List (ℕ × Cluster)
  pub next_id : ℕ
  pub lru : List ℕ
  pub evicted : ℕ

abbrev pub empty_node : Node
empty_node = record { children = []; clusters = [] }

abbrev pub node_at : List Node → ℕ → Node
node_at nodes a = get_or nodes a empty_node

-- `seqDistance`, as the tokens that agree and the parameters.
unfoldable pub agreeing : List Token → List Token → ℕ
agreeing [] toks = 0
agreeing (t ∷ tpl) [] = 0
agreeing (t ∷ tpl) (u ∷ toks) =
    let rest = agreeing tpl toks in
    if list_beq t param then rest else if list_beq t u then rest + 1 else rest

unfoldable pub params : List Token → ℕ
params [] = 0
params (t ∷ tpl) = let rest = params tpl in if list_beq t param then rest + 1 else rest

-- The loop of `Add` over `c.Tokens`: positions that differ become parameters. A template has as
-- many tokens as the line that its leaf was found for.
unfoldable pub generalise : List Token → List Token → List Token
generalise [] toks = []
generalise (t ∷ tpl) [] = t ∷ tpl
generalise (t ∷ tpl) (u ∷ toks) =
    (if not (list_beq t param) && not (list_beq t u) then param else t) ∷ generalise tpl toks

unfoldable pub change : List Token → List Token → Change
change [] toks = unchanged
change (t ∷ tpl) [] = unchanged
change (t ∷ tpl) (u ∷ toks) =
    let rest = change tpl toks in
    if not (list_beq t param) && not (list_beq t u) then updated else rest

abbrev pub is_digit : ℕ → Bool
is_digit c = leb b'0' c && leb c b'9'

unfoldable pub has_digit : Token → Bool
has_digit [] = false
has_digit (c ∷ s) = is_digit c || has_digit s

-- A new child of `cur` under `key`: the nodes, and where it is.
unfoldable pub add_child : List Node → ℕ → Token → List Node × ℕ
add_child nodes cur key =
    let node = node_at nodes cur in
    (
      set nodes cur (record node { children = insert key (length nodes) node.children })
          ++ (empty_node ∷ []),
      length nodes,
    )

-- `removeFirst`, the loop over `leaf.clusters` of `evict`, and the unlinking of an id.
unfoldable pub remove : ℕ → List ℕ → List ℕ
remove id [] = []
remove id (x ∷ xs) = if x == id then xs else x ∷ remove id xs

-- `touch`: the cluster goes to the front of the list, unless it is there.
unfoldable pub touch : ℕ → List ℕ → List ℕ
touch id [] = id ∷ []
touch id (x ∷ xs) = if x == id then x ∷ xs else id ∷ remove id (x ∷ xs)
