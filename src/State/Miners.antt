-- ===== src/State/Miners.antt =====
-- state.go: the templates of a service, saved and loaded.
use self_hosted_anomaly_dete.Common.{
  ℕ, ◌≤◌, ◌<◌, ◌≡◌, refl, sym, ap, ap₂, ◌∙◌, Bool, true, false, Option, none, some, List, [], ◌∷◌,
  arith, if◌then◌else◌, ◌==◌, ==_iff, if_true, if_false, if_both, suc,
}
use mathlib.Core.Path.{subst}
use self_hosted_anomaly_dete.Common.Keys.{nat_eq, list_eq, pair_eq, lookup, lookup-insert, has_key}
use self_hosted_anomaly_dete.Common.Text.{Text}
use self_hosted_anomaly_dete.Floats.{Floats}
use self_hosted_anomaly_dete.Drain.{Token, Config, Cluster, Miner, touch, remove}
use self_hosted_anomaly_dete.Drain.Mining.{restore, insert_cluster, new_miner}
use self_hosted_anomaly_dete.Drain.Uses.{count, present}
use self_hosted_anomaly_dete.Drain.Recency.{IsSound}
use self_hosted_anomaly_dete.Ingest.Logs.{Meta, Setup}
use self_hosted_anomaly_dete.Novelty.{TmplKey}
use self_hosted_anomaly_dete.State.{ClusterSnap, snap_cluster, add_cluster, save_clusters}
use self_hosted_anomaly_dete.State.Load.{load_cluster, load_clusters}

-- A cluster's text and lines, which are what a snapshot keeps of it.
abbrev pub text_and_size : Option Cluster → Option (List Token × ℕ)
text_and_size none = none
text_and_size (some c) = some (c.tokens, c.size)

remove_new : (id : ℕ) (xs : List ℕ) → count id xs ≡ 0 → remove id xs ≡ xs
unfolding remove
remove_new id [] e = refl
remove_new id (x ∷ xs) e = ground (arith, e, remove_new id xs)

touch_new : (id : ℕ) (xs : List ℕ) → count id xs ≡ 0 → touch id xs ≡ id ∷ xs
unfolding touch
touch_new id [] e = refl
touch_new id (x ∷ xs) e = ground (arith, e, remove_new id (x ∷ xs) e)

has_key-none : {V : Type 0} (k : ℕ) (m : List (ℕ × V)) → lookup k m ≡ none → has_key k m ≡ false
has_key-none k [] e = refl
has_key-none k ((j, v) ∷ m) e = ground (arith, e, has_key-none k m)

text_none : (o : Option Cluster) → text_and_size o ≡ none → o ≡ none
text_none none e = refl
text_none (some c) e = absurd (ground (arith, e))

count_self : (id : ℕ) (xs : List ℕ) → count id (id ∷ xs) ≡ suc (count id xs)
count_self id xs = ground arith

text_if :
    (b : Bool) (c : Cluster) (o : Option Cluster)
    → text_and_size (if b then some c else o)
      ≡ (if b then some (c.tokens, c.size) else text_and_size o)
text_if true c o = refl
text_if false c o = refl

module _ (fl : Floats) (cfg : Setup fl) (svc : Text) (clusters : List (ℕ × Cluster)) where
  -- The miner holds the clusters of the list.
  record Holds (lru : List ℕ) (m : Miner fl) : Type 0 where
    order : m.lru ≡ lru
    found :
        (id : ℕ)
        → text_and_size (lookup id m.clusters)
          ≡ (if count id lru == 0 then none else text_and_size (lookup id clusters))

  -- The ids of the list are those of clusters, once each.
  record Listed (lru : List ℕ) : Type 0 where
    once : (id : ℕ) → count id lru ≤ 1
    known :
        (id : ℕ) → 0 < count id lru → (c : Cluster) × (lookup id clusters ≡ some c) × (c.id ≡ id)

  restored :
      (m : Miner fl) (id j : ℕ) (toks : List Token) (size : ℕ)
      → text_and_size (lookup j (restore fl m id toks size).clusters)
        ≡ (if id == j then some (toks, size) else text_and_size (lookup j m.clusters))
  unfolding restore insert_cluster
  restored m id j toks size =
      ap text_and_size (lookup-insert id j _ m.clusters) ∙ text_if (id == j) _ (lookup j m.clusters)

  restore-Holds :
      (id : ℕ) (lru : List ℕ) (c : Cluster) (m : Miner fl)
      → count id lru ≡ 0
      → lookup id clusters ≡ some c
      → Holds lru m
      → Holds (id ∷ lru) (restore fl m id c.tokens c.size)
  unfolding restore insert_cluster
  restore-Holds id lru c m new e h = record {
    order = ap (touch id) h.order ∙ touch_new id lru new;
    found =
        λ j. ground (arith, restored m id j c.tokens c.size, h.found j, ap text_and_size e, new);
  }

  -- A cluster that is not there yet is restored under its id.
  load_new :
      (s : ClusterSnap) (st : Miner fl × List (TmplKey × Meta))
      → has_key s.id st.0.clusters ≡ false
      → (load_cluster fl cfg false svc s st).0 ≡ restore fl st.0 s.id s.tokens s.size
  unfolding load_cluster
  load_new s (m, tmpl) e =
      ap (λ (r : Miner fl × List (TmplKey × Meta)). r.0) (if_false (has_key s.id m.clusters) _ _ e)

  load-Holds :
      (id : ℕ) (lru : List ℕ) (c : Cluster) (s : ClusterSnap)
      (st : Miner fl × List (TmplKey × Meta))
      → count id lru ≡ 0
      → lookup id clusters ≡ some c
      → s.id ≡ id
      → s.tokens ≡ c.tokens
      → s.size ≡ c.size
      → Holds lru st.0
      → Holds (id ∷ lru) (load_cluster fl cfg false svc s st).0
  load-Holds id lru c s st new e own toks size h =
      let absent : has_key s.id st.0.clusters ≡ false = has_key-none s.id st.0.clusters (
        text_none (lookup s.id st.0.clusters) (
          rw own
            (h.found id ∙ if_true (count id lru == 0) _ _ ((==_iff (count id lru) 0).1 new)))) in
      subst (Holds (id ∷ lru))
        (sym (
          load_new s st absent
          ∙ ap (λ i. restore fl st.0 i s.tokens s.size) own
          ∙ ap₂ (λ t n. restore fl st.0 id t n) toks size))
        (restore-Holds id lru c st.0 new e h)

  Listed-tail : (id : ℕ) (lru : List ℕ) → Listed (id ∷ lru) → Listed lru
  Listed-tail id lru h = record {
    once = λ j. omega (arith, h.once j);
    known = λ j p. h.known j (omega (arith, p));
  }

  load_clusters-Holds :
      (tmpl : List (TmplKey × Meta)) (lru : List ℕ) (m : Miner fl) (tmpl' : List (TmplKey × Meta))
      → Listed lru
      → Holds [] m
      → Holds lru
          (load_clusters fl cfg false svc (save_clusters svc tmpl clusters lru) (m, tmpl')).0
  unfolding load_clusters save_clusters
  load_clusters-Holds tmpl [] m tmpl' listed h = h
  load_clusters-Holds tmpl (id ∷ lru) m tmpl' listed h =
      let rest = load_clusters-Holds tmpl lru m tmpl' (Listed-tail id lru listed) h in
      let (c, e, own) = listed.known id (omega (arith, count_self id lru)) in
      subst
        (λ o.
          Holds (id ∷ lru)
            (load_clusters fl cfg false svc
              (add_cluster svc tmpl o (save_clusters svc tmpl clusters lru)) (m, tmpl')).0)
        (sym e)
        (load-Holds id lru c (snap_cluster (lookup (svc, c.id) tmpl) c)
          (load_clusters fl cfg false svc (save_clusters svc tmpl clusters lru) (m, tmpl'))
          (omega (arith, listed.once id, count_self id lru)) e own refl refl rest)

all-Listed :
    (fl : Floats) (m : Miner fl)
    → IsSound m
    → (cfg : Setup fl) (svc : Text) → Listed fl cfg svc m.clusters m.lru
all-Listed fl m sound cfg svc = record {
  once = λ id. at_most_one (lookup id m.clusters) (sound.listed id);
  known = λ id p. one (lookup id m.clusters) refl p;
}
  where
    at_most_one : {n : ℕ} (o : Option Cluster) → n ≡ present o → n ≤ 1
    at_most_one none e = omega (arith, e)
    at_most_one (some c) e = omega (arith, e)

    one :
        {id : ℕ} (o : Option Cluster)
        → lookup id m.clusters ≡ o
        → 0 < count id m.lru
        → (c : Cluster) × (lookup id m.clusters ≡ some c) × (c.id ≡ id)
    one {id} none e p = absurd (omega (arith, p, sound.listed id, ap present e))
    one {id} (some c) e p = (c, e, sound.keyed id c e)

if_present :
    (n : ℕ) (o : Option Cluster)
    → n ≡ present o
    → (if n == 0 then none else text_and_size o) ≡ text_and_size o
if_present n none e = if_both (λ z. z ≡ none) (n == 0) refl refl
if_present n (some c) e = ground (arith, e)

-- The templates of a sound miner that were saved and are loaded into a new one of the same
-- service: they come in the same order of use, and each id has the text and the lines that it had.
pub load_clusters-save_clusters :
    (fl : Floats) (cfg : Setup fl) (svc : Text) (tmpl tmpl' : List (TmplKey × Meta)) (m : Miner fl)
    (dcfg : Config fl)
    → IsSound m
    → let m' =
        (load_clusters fl cfg false svc
          (save_clusters svc tmpl m.clusters m.lru)
          (new_miner fl dcfg, tmpl')).0 in
      (m'.lru ≡ m.lru)
      × ((id : ℕ) → text_and_size (lookup id m'.clusters) ≡ text_and_size (lookup id m.clusters))
unfolding new_miner
load_clusters-save_clusters fl cfg svc tmpl tmpl' m dcfg sound =
    let held =
      load_clusters-Holds fl cfg svc m.clusters tmpl m.lru (new_miner fl dcfg) tmpl'
        (all-Listed fl m sound cfg svc) (record { order = refl; found = λ id. refl }) in
    (
      held.order,
      λ id. held.found id ∙ if_present (count id m.lru) (lookup id m.clusters) (sound.listed id),
    )
