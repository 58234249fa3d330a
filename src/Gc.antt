-- ===== src/Gc.antt =====
-- anomalyd/internal/server/eval.go, `gc`: the series and the metadata of templates that go at the
-- end of a round. The candidates are taken before the scan of the miners, and no push comes between
-- here.
use self_hosted_anomaly_dete.Common.{
  ℕ, ◌+◌, ◌%◌, ◌≡◌, refl, ap, ◌∙◌, Bool, true, false, not, ◌&&◌, ◌||◌, Option, none, some, List, [],
  ◌∷◌, ◌==◌, if◌then◌else◌, arith, if_both,
}
use self_hosted_anomaly_dete.Common.Int.{ℤ, pos, ◌-ℤ◌, ltb_ℤ}
use self_hosted_anomaly_dete.Common.Keys.{nat_eq, list_eq, pair_eq, pair_beq_iff, lookup, IsMap}
use self_hosted_anomaly_dete.Floats.{Floats}
use self_hosted_anomaly_dete.Series.{Series}
use self_hosted_anomaly_dete.Store.{Key, Store, delete, find}
use self_hosted_anomaly_dete.Store.Count.{IsSound, delete_lem}
use self_hosted_anomaly_dete.Drain.{Miner}
use self_hosted_anomaly_dete.Drain.Pool.{Pool}
use self_hosted_anomaly_dete.Eval.{Info, Absence, abs_firing}
use self_hosted_anomaly_dete.Ingest.Logs.{Meta}
use self_hosted_anomaly_dete.Novelty.{TmplKey}

-- What a run changes.
pub record Kept (fl : Floats) : Type 0 where
  pub runs : ℕ
  pub tmpl : List (TmplKey × Meta)
  pub prom : Store fl (Info fl)
  pub logs : Store fl (Info fl)

abbrev pub is_in : ℕ → List ℕ → Bool
is_in id [] = false
is_in id (i ∷ is) = i == id || is_in id is

abbrev pub is_firing : Absence → Bool
is_firing abs_firing = true
is_firing _ = false

-- The candidates that are not live are deleted.
unfoldable pub gc_tmpl : (TmplKey → Bool) → List (TmplKey × Meta) → List (TmplKey × Meta)
gc_tmpl live [] = []
gc_tmpl live ((k, m) ∷ ms) =
    let rest = gc_tmpl live ms in if not m.novel && not (live k) then rest else (k, m) ∷ rest

module _ (fl : Floats) where
  abbrev pub has_cluster : ℕ → Option (Miner fl) → Bool
  has_cluster id none = false
  has_cluster id (some m) = is_in id m.lru

  -- `live`
  abbrev pub is_live : Pool fl → TmplKey → Bool
  is_live pool k = has_cluster k.1 (lookup k.0 pool.miners)

  -- No data for a full ring, and no finding of its absence.
  abbrev pub is_gone : ℤ → ℕ → Series fl (Info fl) → Bool
  is_gone prom_open capacity s =
      ltb_ℤ s.info.last_data (prom_open -ℤ pos capacity) && not (is_firing s.info.absent)

  -- No lines for a full season, and no finding.
  abbrev pub is_silent : ℤ → ℕ → Series fl (Info fl) → Bool
  is_silent log_open season s = ltb_ℤ s.info.last_data (log_open -ℤ pos season) && not s.info.firing

  -- `gc`, with the season of the log series.
  unfoldable pub gc : ℤ → ℤ → ℕ → Pool fl → Kept fl → Kept fl
  gc prom_open log_open season pool st =
      let runs = st.runs + 1 in
      record {
        runs = runs;
        tmpl = if runs % 100 == 0 then gc_tmpl (is_live pool) st.tmpl else st.tmpl;
        prom = (delete fl st.prom (is_gone prom_open st.prom.capacity)).0;
        logs = (delete fl st.logs (is_silent log_open season)).0;
      }

abbrev pub spare : Option Meta → Bool → Option Meta
spare none live = none
spare (some m) live = if m.novel || live then some m else none

lookup-gc_tmpl :
    (live : TmplKey → Bool) (k : TmplKey) (tmpl : List (TmplKey × Meta))
    → IsMap tmpl
    → lookup k (gc_tmpl live tmpl) ≡ spare (lookup k tmpl) (live k)
unfolding gc_tmpl
lookup-gc_tmpl live k [] h = refl
lookup-gc_tmpl live k ((j, m) ∷ ms) h =
    ground (arith, h, pair_beq_iff j k, lookup-gc_tmpl live k ms h.1)

gc_tmpl-IsMap :
    (live : TmplKey → Bool) (tmpl : List (TmplKey × Meta)) → IsMap tmpl → IsMap (gc_tmpl live tmpl)
unfolding gc_tmpl
gc_tmpl-IsMap live [] h = tt
gc_tmpl-IsMap live ((k, m) ∷ ms) h =
    let rest = gc_tmpl-IsMap live ms h.1 in
    if_both IsMap (not m.novel && not (live k)) rest
      (lookup-gc_tmpl live k ms h.1 ∙ ap (λ o. spare o (live k)) h.0, rest)

-- What is left of a series that `drop` may name.
abbrev pub unless {ℓ} : {A : Type ℓ} → (A → Bool) → Option A → Option A
unless drop none = none
unless drop (some a) = if drop a then none else some a

-- What a run leaves, of both stores and of the metadata.
pub record Cleans {fl : Floats} (hash : Key → ℕ) (prom_open log_open : ℤ) (season : ℕ)
    (pool : Pool fl) (st st' : Kept fl) : Type 0 where
  pub prom_sound : IsSound st'.prom
  pub logs_sound : IsSound st'.logs
  pub tmpl_map : IsMap st'.tmpl
  pub prom_left :
      (key : Key)
      → find fl hash st'.prom key
        ≡ unless (is_gone fl prom_open st.prom.capacity) (find fl hash st.prom key)
  pub logs_left :
      (key : Key)
      → find fl hash st'.logs key ≡ unless (is_silent fl log_open season) (find fl hash st.logs key)
  pub tmpl_left :
      (k : TmplKey)
      → lookup k st'.tmpl ≡ (
          if (st.runs + 1) % 100 == 0
          then spare (lookup k st.tmpl) (is_live fl pool k)
          else lookup k st.tmpl)

unless_lem :
    {A : Type 0} (drop : A → Bool) (o : Option A)
    → (elim o [ none ↦ none | some s ↦ if drop s then none else some s ]) ≡ unless drop o
unless_lem drop none = refl
unless_lem drop (some a) = refl

-- A run on sound stores and on metadata with no template twice leaves sound stores; the metric
-- series with no data for a full ring and no firing absence go, the log series with no lines for a
-- full season and no firing finding go, and no others; and every hundredth run the metadata of a
-- template goes that is neither a novelty nor in its service's miner, and no other. The metadata
-- still hold no template twice.
pub gc-Cleans :
    (fl : Floats) (hash : Key → ℕ) (prom_open log_open : ℤ) (season : ℕ) (pool : Pool fl)
    (st : Kept fl)
    → IsSound st.prom
    → IsSound st.logs
    → IsMap st.tmpl
    → Cleans hash prom_open log_open season pool st (gc fl prom_open log_open season pool st)
unfolding gc
gc-Cleans fl hash prom_open log_open season pool st prom logs distinct =
    let p = delete_lem fl hash st.prom (is_gone fl prom_open st.prom.capacity) prom in
    let l = delete_lem fl hash st.logs (is_silent fl log_open season) logs in
    record {
      prom_sound = p.0;
      logs_sound = l.0;
      tmpl_map =
          if_both IsMap ((st.runs + 1) % 100 == 0)
            (gc_tmpl-IsMap (is_live fl pool) st.tmpl distinct) distinct;
      prom_left = λ key.
          p.2 key ∙ unless_lem (is_gone fl prom_open st.prom.capacity) (find fl hash st.prom key);
      logs_left =
          λ key. l.2 key ∙ unless_lem (is_silent fl log_open season) (find fl hash st.logs key);
      tmpl_left = λ k. tmpl_after k ((st.runs + 1) % 100 == 0);
    }
  where
    tmpl_after :
        (k : TmplKey) (b : Bool)
        → lookup k (if b then gc_tmpl (is_live fl pool) st.tmpl else st.tmpl)
          ≡ (if b then spare (lookup k st.tmpl) (is_live fl pool k) else lookup k st.tmpl)
    tmpl_after k true = lookup-gc_tmpl (is_live fl pool) k st.tmpl distinct
    tmpl_after k false = refl
