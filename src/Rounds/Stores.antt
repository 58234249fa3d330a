-- ===== src/Rounds/Stores.antt =====
-- eval.go, `Evaluate`: a round leaves a sound store sound.
use self_hosted_anomaly_dete.Common.{
  suc, ◌+◌, ◌≡◌, refl, sym, ap, ap₂, ◌∙◌, Bool, false, Option, none, some, List, [], ◌∷◌, map,
  length, arith, All,
}
use mathlib.Core.Path.{subst}
use self_hosted_anomaly_dete.Common.Int.{ℤ}
use self_hosted_anomaly_dete.Common.Keys.{Eq, nat_eq, list_eq, pair_eq, lookup, IsMap}
use self_hosted_anomaly_dete.Floats.{Floats}
use self_hosted_anomaly_dete.Store.{Shard, Store, total}
use self_hosted_anomaly_dete.Store.Count
use self_hosted_anomaly_dete.Eval.{Limits, Info}
use self_hosted_anomaly_dete.Rounds.{eval_shard, eval_shards, run, run_prom}

abbrev pub keys_of : {K V : Type 0} → List (K × V) → List K
keys_of m = map (λ p. p.0) m

-- Whether a key stands twice is a matter of the keys.
module _ {K V : Type 0} ⦃e : Eq K⦄ where
  lookup_keys :
      (k : K) (m n : List (K × V)) → keys_of m ≡ keys_of n → lookup k m ≡ none → lookup k n ≡ none
  lookup_keys k [] [] h l = refl
  lookup_keys k [] (q ∷ n) h l = absurd (ground (arith, h))
  lookup_keys k (p ∷ m) [] h l = refl
  lookup_keys k ((i, v) ∷ m) ((j, w) ∷ n) h l = ground (arith, h, l, lookup_keys k m n)

  pub IsMap_keys : (m n : List (K × V)) → keys_of m ≡ keys_of n → IsMap m → IsMap n
  IsMap_keys m [] h d = tt
  IsMap_keys [] (q ∷ n) h d = absurd (ground (arith, h))
  IsMap_keys ((i, v) ∷ m) ((j, w) ∷ n) h d =
      let same : i ≡ j = ground (arith, h) in
      let rest : keys_of m ≡ keys_of n = ground (arith, h) in
      (subst (λ k. lookup k n ≡ none) same (lookup_keys i m n rest d.0), IsMap_keys m n rest d.1)

module _ (fl : Floats) (sort : List fl.F → List fl.F) (mad_factor : fl.F) (cfg : Limits fl)
    (seen : ℤ → Bool) where
  abbrev one_shard : Bool → ℤ → Shard fl (Info fl) → Shard fl (Info fl)
  one_shard is_log b m = (eval_shard fl sort mad_factor cfg seen is_log b m).0

  abbrev all_shards : Bool → ℤ → List (Shard fl (Info fl)) → List (Shard fl (Info fl))
  all_shards is_log b ms = (eval_shards fl sort mad_factor cfg seen is_log b ms).0

  keys_of-one_shard :
      (is_log : Bool) (b : ℤ) (m : Shard fl (Info fl)) → keys_of (one_shard is_log b m) ≡ keys_of m
  unfolding eval_shard
  keys_of-one_shard is_log b [] = refl
  keys_of-one_shard is_log b ((k, s) ∷ m) = ap (λ ks. k ∷ ks) (keys_of-one_shard is_log b m)

  length-one_shard :
      (is_log : Bool) (b : ℤ) (m : Shard fl (Info fl)) → length (one_shard is_log b m) ≡ length m
  unfolding eval_shard
  length-one_shard is_log b [] = refl
  length-one_shard is_log b ((k, s) ∷ m) = ap (λ n. suc n) (length-one_shard is_log b m)

  record Same (ms ms' : List (Shard fl (Info fl))) : Type 0 where
    lengths : length ms' ≡ length ms
    totals : total fl ms' ≡ total fl ms
    distinct : All IsMap ms → All IsMap ms'

  all_shards-Same :
      (is_log : Bool) (b : ℤ) (ms : List (Shard fl (Info fl))) → Same ms (all_shards is_log b ms)
  unfolding eval_shards
  all_shards-Same is_log b [] = record { lengths = refl; totals = refl; distinct = λ h. h }
  all_shards-Same is_log b (m ∷ ms) =
      let rest = all_shards-Same is_log b ms in
      record {
        lengths = ap (λ n. suc n) rest.lengths;
        totals = ap₂ (λ i j. i + j) (length-one_shard is_log b m) rest.totals;
        distinct = λ h. (
          IsMap_keys m (one_shard is_log b m) (sym (keys_of-one_shard is_log b m)) h.0,
          rest.distinct h.1,
        );
      }

  pub run-IsSound :
      (is_log : Bool) (b : ℤ) (st : Store fl (Info fl))
      → Count.IsSound st
      → Count.IsSound (run fl sort mad_factor cfg seen is_log b st).0
  unfolding run
  run-IsSound is_log b st h =
      let same = all_shards-Same is_log b st.shards in
      record {
        sharded = same.lengths ∙ h.sharded;
        counted = h.counted ∙ sym same.totals;
        capped = h.capped;
        distinct = same.distinct h.distinct;
      }

  pub run_prom-IsSound :
      (o : Option ℤ) (st : Store fl (Info fl))
      → Count.IsSound st
      → Count.IsSound (run_prom fl sort mad_factor cfg seen o st).0
  run_prom-IsSound none st h = h
  run_prom-IsSound (some b) st h = run-IsSound false b st h
