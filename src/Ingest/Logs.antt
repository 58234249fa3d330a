-- ===== src/Ingest/Logs.antt =====
-- ingest.go: the template counts that agents push. JSON, gzip and HTTP are outside: a push is
-- decoded. The signatures are tests on a template's text, and `itoa` is `strconv.Itoa`.
pub mod Aliases
pub mod Counts
pub mod Templates
pub mod Totals
pub mod Posted
use self_hosted_anomaly_dete.Common.{
  ℕ, zero, suc, ◌+◌, ◌*◌, ◌%◌, max, Bool, true, false, not, ◌&&◌, ◌||◌, Option, none, some, List,
  [], ◌∷◌, ltb, leb, ◌==◌, if◌then◌else◌, length, get_or, set,
}
use mathlib.Core.List.{foldl}
use self_hosted_anomaly_dete.Common.Int.{ℤ, pos, negsuc, ltb_ℤ}
use self_hosted_anomaly_dete.Common.Keys.{nat_eq, list_eq, pair_eq, lookup, insert}
use self_hosted_anomaly_dete.Common.Text.{Text, bytes, fields}
use self_hosted_anomaly_dete.Floats.{Floats}
use self_hosted_anomaly_dete.Drain.{Change, unchanged, created, Miner}
use self_hosted_anomaly_dete.Drain.Mining.{hit, add}
use self_hosted_anomaly_dete.Drain.Pool.{Pool, get}
use self_hosted_anomaly_dete.Series.{Series, Label, sum}
use self_hosted_anomaly_dete.Series
use self_hosted_anomaly_dete.Series.Labels.{key_of}
use self_hosted_anomaly_dete.Store.{Key, Store, Made, update}
use self_hosted_anomaly_dete.Detect.{Params}
use self_hosted_anomaly_dete.Eval.{Info}
use self_hosted_anomaly_dete.Logparse.Levels.{Level, unknown, level_of, name_of}
use self_hosted_anomaly_dete.Logparse.Infer.{infer_level}
use self_hosted_anomaly_dete.Agent.Lines.{miner_at, template_at}
use self_hosted_anomaly_dete.Agents.{Registry, record_push, reject}
use self_hosted_anomaly_dete.Wire.{Item, Push}
use self_hosted_anomaly_dete.Ingest.{quot, log_info, name_volume, max_future, add64}

-- `tmplMeta`
pub record Meta : Type 0 where
  pub levels : List (Text × ℕ)
  pub made_at : ℕ
  pub novel : Bool
  pub count : ℕ
  pub fired : Option ℕ
  pub inferred : Level
  pub sigs : List ℕ
  pub sig_lines : ℕ

-- What the handler changes of the server.
pub record Logs (fl : Floats) : Type 0 where
  pub pool : Pool fl
  pub aliases : List (Text × List (Text × ℕ))
  pub tmpl : List ((Text × ℕ) × Meta)
  pub made : List (Text × ℕ)
  pub log_start : ℕ
  pub series : Store fl (Info fl)
  pub sig_matches : List ℕ
  pub log_lines : ℕ
  pub pushes : ℕ
  pub push_errors : ℕ
  pub bad_step : ℕ
  pub agents : Registry

-- What it reads of the configuration; `warmup` is in seconds.
pub record Setup (fl : Floats) : Type 0 where
  pub step : ℕ
  pub warmup : ℕ
  pub max_clusters : ℕ
  pub signatures : List (Text → Bool)
  pub params : Params fl
  pub min_count : fl.F

abbrev pub number_or : Option ℕ → ℕ
number_or none = 0
number_or (some n) = n

abbrev pub matches : ℕ → List (Text → Bool) → Text → List ℕ
matches i [] text = []
matches i (sg ∷ sgs) text =
    let rest = matches (suc i) sgs text in if sg text then i ∷ rest else rest

abbrev pub is_changed : Change → Bool
is_changed unchanged = false
is_changed _ = true

-- `s.sigMatches[i].Add(n)` for the signatures of a template.
abbrev pub add_matches : ℕ → List ℕ → List ℕ → List ℕ
add_matches n [] totals = totals
add_matches n (i ∷ is) totals = add_matches n is (set totals i (add64 (get_or totals i 0) n))

module _ (fl : Floats) (cfg : Setup fl) where
  -- `classifyLocked`
  unfoldable pub classify : Text → Meta → Meta
  classify text m = record m { inferred = infer_level text; sigs = matches 0 cfg.signatures text }

  -- The metadata of a new template.
  abbrev pub new_meta : ℕ → ℕ → Meta
  new_meta start now = record {
    levels = [];
    made_at = now;
    novel = ltb 0 start && leb (start + cfg.warmup) now;
    count = 0;
    fired = none;
    inferred = unknown;
    sigs = [];
    sig_lines = 0;
  }

  abbrev pub create : Text × ℕ → ℕ → Change → Logs fl → Logs fl
  create k now created st = record st {
    made = insert k.0 (number_or (lookup k.0 st.made) + 1) st.made;
    tmpl = insert k (new_meta st.log_start now) st.tmpl;
  }
  create k now _ st = st

  abbrev pub reclassify : Text × ℕ → Text → Option Meta → Logs fl → Logs fl
  reclassify k text none st = st
  reclassify k text (some m) st = record st { tmpl = insert k (classify text m) st.tmpl }

  -- `templateChangedLocked`, with the template's text.
  unfoldable pub template_changed : Text × ℕ → Text → Change → ℕ → Logs fl → Logs fl
  template_changed k text ch now st =
      let st' = create k now ch st in
      if is_changed ch then reclassify k text (lookup k st'.tmpl) st' else st'

  -- The aliases of a service, which start again when they are many.
  abbrev pub alias_cap : ℕ
  alias_cap = 20 * max cfg.max_clusters 1000

  abbrev pub aliases_of : Option (List (Text × ℕ)) → List (Text × ℕ)
  aliases_of none = []
  aliases_of (some al) = if ltb alias_cap (length al) then [] else al

  abbrev pub with_miner : Text → Miner fl → Logs fl → Logs fl
  with_miner svc m st = record st { pool = record st.pool { miners = insert svc m st.pool.miners } }

  -- A template that the agent's text is no alias of, or of one that was evicted.
  unfoldable pub new_alias : Text → Text → ℕ → ℕ → List (Text × ℕ) → Logs fl → Logs fl × Text × ℕ
  new_alias svc text n now al st =
      let (m, id, ch) = add fl (miner_at fl st.pool svc) (fields text) n in
      let st' : Logs fl = record (with_miner svc m st) {
        aliases = insert svc (insert text id al) st.aliases;
      } in
      (template_changed (svc, id) (template_at m.clusters id) ch now st', svc, id)

  -- `globalTemplate` for a service that has a miner, given the alias of the text.
  unfoldable pub by_alias :
      Text → Text → ℕ → ℕ → List (Text × ℕ) → Logs fl → Option ℕ → Logs fl × Text × ℕ
  by_alias svc text n now al st none = new_alias svc text n now al st
  by_alias svc text n now al st (some id) =
      let (m, found) = hit fl (miner_at fl st.pool svc) id n in
      if found then (with_miner svc m st, svc, id) else new_alias svc text n now al st

  unfoldable pub global_template :
      (Text → Text) → Text → Text → ℕ → ℕ → Logs fl → Logs fl × Text × ℕ
  global_template clean service text n now st =
      let (pool, svc) = get fl st.pool (clean service) in
      let al = aliases_of (lookup svc st.aliases) in
      by_alias svc text n now al (record st { pool = pool; aliases = insert svc al st.aliases })
        (lookup text al)
