-- ===== src/Ingest/Logs/Counts.antt =====
-- ingest.go, `handlePush` and `addLog`: the lines of a push, in the series and in the counters. A
-- number of lines is an `int64`, and stands for itself by its bits, a number below 2^64; the two
-- numbers of a count, which are decoded, are signed and fit 64 bits.
use self_hosted_anomaly_dete.Common.{
  ℕ, zero, suc, ◌+◌, ◌%◌, Bool, true, false, not, ◌&&◌, Option, none, some, List, [], ◌∷◌, ◌==◌,
  if◌then◌else◌,
}
use mathlib.Core.List.{foldl}
use self_hosted_anomaly_dete.Common.Int.{ℤ, pos, negsuc, ltb_ℤ}
use self_hosted_anomaly_dete.Common.Keys.{nat_eq, list_eq, list_beq, pair_eq, lookup, insert}
use self_hosted_anomaly_dete.Common.Text.{Text, bytes}
use self_hosted_anomaly_dete.Floats.{Floats}
use self_hosted_anomaly_dete.Series.{Series, Label, sum}
use self_hosted_anomaly_dete.Series
use self_hosted_anomaly_dete.Series.Labels.{key_of}
use self_hosted_anomaly_dete.Store.{Key, Store, update}
use self_hosted_anomaly_dete.Eval.{Info}
use self_hosted_anomaly_dete.Logparse.Levels.{level_of, name_of}
use self_hosted_anomaly_dete.Agents.{record_push, reject}
use self_hosted_anomaly_dete.Wire.{Item, Push}
use self_hosted_anomaly_dete.Ingest.{quot, log_info, name_volume, max_future, add64, is_positive}
use self_hosted_anomaly_dete.Ingest.Logs.{
  Meta, Logs, Setup, number_or, add_matches, global_template,
}

abbrev pub name_template : Text
name_template = bytes "anomalyd_log_template_lines"

abbrev pub level_or : Text → Text
level_or [] = bytes "unknown"
level_or (c ∷ l) = c ∷ l

abbrev pub is_some_sigs : List ℕ → Bool
is_some_sigs [] = false
is_some_sigs (i ∷ is) = true

-- The metadata of a template behind `n` lines.
unfoldable pub count_meta : Text → ℕ → Meta → Meta
count_meta level n m = record m {
  levels = insert level (add64 (number_or (lookup level m.levels)) n) m.levels;
  count = if m.novel then add64 m.count n else m.count;
  sig_lines = if is_some_sigs m.sigs then add64 m.sig_lines n else m.sig_lines;
}

abbrev pub label : Text → Text → Label
label name value = record { name = name; value = value }

abbrev pub is_valid : ℤ → ℤ × ℤ → Bool
is_valid max_ts c = ltb_ℤ (pos 0) c.1 && not (ltb_ℤ max_ts c.0)

-- The lines of a count.
abbrev pub lines_in : ℤ → ℤ × ℤ → ℕ
lines_in max_ts (ts, pos n) = if is_valid max_ts (ts, pos n) then n else 0
lines_in max_ts (ts, negsuc n) = 0

-- The first loop over the counts of an item: a sum that wraps, so that its order does not matter.
abbrev pub total_in : ℤ → List (ℤ × ℤ) → ℕ
total_in max_ts [] = 0
total_in max_ts (c ∷ cs) = add64 (lines_in max_ts c) (total_in max_ts cs)

abbrev pub note : Text → List Text → List Text
note svc [] = svc ∷ []
note svc (s ∷ svcs) = if list_beq s svc then s ∷ svcs else s ∷ note svc svcs

-- `maxTS`
abbrev pub limit_at : ℕ → ℤ
limit_at now = pos (now + max_future)

module _ (fl : Floats) (cfg : Setup fl) (hash : Key → ℕ) (itoa : ℕ → Text) where
  abbrev pub count_template : Text → ℕ → Option Meta → Text × ℕ → Logs fl → Logs fl
  count_template level n none k st = st
  count_template level n (some m) k st = record st {
    tmpl = insert k (count_meta level n m) st.tmpl;
    sig_matches = add_matches n m.sigs st.sig_matches;
  }

  -- The function that `addLog` gives to `Update`.
  unfoldable pub add_lines : ℤ → ℕ → Series fl (Info fl) → Series fl (Info fl)
  add_lines b n sr =
      let sr' = Series.add fl sr b (fl.of_ℕ n) in
      let info = sr'.info in
      record sr' {
        info = record info { last_data = if ltb_ℤ info.last_data b then b else info.last_data };
      }

  abbrev pub update_series : List Label → ℤ → ℕ → Store fl (Info fl) → Store fl (Info fl)
  update_series ls b n st =
      (update fl hash st (key_of ls)
        (record { labels = ls; agg = sum; info = log_info fl cfg.params cfg.min_count ls })
        (add_lines b n)).0

  -- `addLog`
  unfoldable pub add_log : Text → ℕ → Text → ℤ → ℕ → Logs fl → Logs fl
  add_log svc id level ts n st =
      let l = level_or level in
      let st' = count_template l n (lookup (svc, id) st.tmpl) (svc, id) st in
      let b = quot ts cfg.step in
      let tl =
        label (bytes "__name__") name_template
        ∷ label (bytes "service") svc
        ∷ label (bytes "template_id") (itoa id)
        ∷ [] in
      let vl =
        label (bytes "__name__") name_volume
        ∷ label (bytes "level") l
        ∷ label (bytes "service") svc
        ∷ [] in
      record st' {
        series = update_series vl b n (update_series tl b n st'.series);
        log_lines = add64 st'.log_lines n;
      }

  -- The second loop over the counts of an item.
  abbrev pub add_count : ℤ → Text → ℕ → Text → ℤ × ℤ → Logs fl → Logs fl
  add_count max_ts svc id level (ts, pos n) st =
      if is_valid max_ts (ts, pos n) then add_log svc id level ts n st else st
  add_count max_ts svc id level (ts, negsuc n) st = st

  unfoldable pub add_counts : ℤ → Text → ℕ → Text → List (ℤ × ℤ) → Logs fl → Logs fl
  add_counts max_ts svc id level [] st = st
  add_counts max_ts svc id level (c ∷ cs) st =
      add_counts max_ts svc id level cs (add_count max_ts svc id level c st)

  -- The state of the loop over the items: the server, the lines and the services.
  pub record Taken : Type 0 where
    pub logs : Logs fl
    pub lines : ℕ
    pub services : List Text

  module _ (clean : Text → Text) (now : ℕ) where
    abbrev pub finish_item : Text → ℕ → Logs fl → Taken → Taken
    finish_item svc total st t =
        if is_positive total
        then record { logs = st; lines = add64 t.lines total; services = note svc t.services }
        else record t { logs = st }

    -- The body of the loop over the items.
    unfoldable pub take_item : Taken → Item → Taken
    take_item t it =
        let total = total_in (limit_at now) it.counts in
        let (st, svc, id) = global_template fl cfg clean it.service it.template total now t.logs in
        let st' =
          add_counts (limit_at now) svc id (bytes (name_of (level_of it.level))) it.counts st in
        elim it.template [ [] ↦ t | c ∷ s ↦ finish_item svc total st' t ]

    unfoldable pub take_items : Taken → List Item → Taken
    take_items t items = foldl take_item t items

    abbrev pub mark_start : Logs fl → Logs fl
    mark_start st = if st.log_start == 0 then record st { log_start = now } else st

    -- `p.Step < 0 || (p.Step > 0 && s.step%p.Step != 0)`
    abbrev pub is_bad_step : ℤ → Bool
    is_bad_step (negsuc n) = true
    is_bad_step (pos zero) = false
    is_bad_step (pos (suc n)) = not (cfg.step % suc n == 0)

    abbrev pub start_items : List Item → Logs fl → Logs fl
    start_items [] st = st
    start_items (it ∷ items) st = mark_start st

    -- `handlePush` from the decoded push on; `clean_agent` and `overflow` are those of the
    -- registry.
    unfoldable pub handle_push : (Text → Text) → Text → Push → Logs fl → Logs fl
    handle_push clean_agent overflow p st =
        let rejected : Logs fl = record st {
          pushes = st.pushes + 1;
          push_errors = st.push_errors + 1;
          bad_step = st.bad_step + 1;
          agents = reject clean_agent overflow p.agent p.step now st.agents;
        } in
        let t =
          take_items
            (record {
              logs = start_items p.items (record st { pushes = st.pushes + 1 });
              lines = 0;
              services = [];
            })
            p.items in
        let done : Logs fl = record t.logs {
          agents =
              record_push clean_agent overflow p.agent p.step t.lines t.services now t.logs.agents;
        } in
        if is_bad_step p.step then rejected else done
