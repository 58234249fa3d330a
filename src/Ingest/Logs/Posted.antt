-- ===== src/Ingest/Logs/Posted.antt =====
-- ingest.go, `handleLogs`: lines that are posted to the server. The scanner is outside: it gives
-- the lines of the body and whether it ended with an error.
use self_hosted_anomaly_dete.Common.{
  ℕ, suc, ◌+◌, ◌≡◌, refl, ◌∙◌, Bool, true, false, Option, some, List, [], ◌∷◌, ◌==◌, if◌then◌else◌,
  length, arith, if_both,
}
use mathlib.Core.List.{foldl}
use self_hosted_anomaly_dete.Common.Int.{pos}
use self_hosted_anomaly_dete.Common.Keys.{nat_eq, list_eq, pair_eq, lookup, insert}
use self_hosted_anomaly_dete.Common.Text.{Text, bytes}
use self_hosted_anomaly_dete.Floats.{Floats}
use self_hosted_anomaly_dete.Drain.Mining.{add}
use self_hosted_anomaly_dete.Drain.Mask.{tokenize}
use self_hosted_anomaly_dete.Drain.Pool.{get}
use self_hosted_anomaly_dete.Store.{Key}
use self_hosted_anomaly_dete.Logparse.{extract}
use self_hosted_anomaly_dete.Logparse.Levels.{level_of, detect_level, name_of}
use self_hosted_anomaly_dete.Agent.{CountKey, key_eq}
use self_hosted_anomaly_dete.Agent.Lines.{miner_at, template_at, or_else}
use self_hosted_anomaly_dete.Ingest.Logs.{
  Logs, Setup, number_or, with_miner, is_changed, template_changed,
}
use self_hosted_anomaly_dete.Ingest.Logs.Counts.{add_log, mark_start}
use self_hosted_anomaly_dete.Ingest.Logs.Templates.{Keeps, template_changed-Keeps}
use self_hosted_anomaly_dete.Ingest.Logs.Totals.{Gains, add_log-Gains}

-- `counts[key{…}]++`
abbrev pub count_key : CountKey → List (CountKey × ℕ) → List (CountKey × ℕ)
count_key k counts = insert k (number_or (lookup k counts) + 1) counts

abbrev pub detected : Text → Text → Text → Text × Text × Text
detected msg svc level = (msg, svc, or_else level (bytes (name_of (detect_level msg))))

-- The message, the service and the level of a line, by the values of its fields.
abbrev pub fields_of_line : Text → Text → Option (List Text) → Text × Text × Text
fields_of_line line service (some (msg ∷ svc ∷ level ∷ [])) =
    detected msg (or_else svc service) (bytes (name_of (level_of level)))
fields_of_line line service _ = detected line service []

module _ (fl : Floats) (cfg : Setup fl) (hash : Key → ℕ) (itoa : ℕ → Text)
    (unquote : Text → Option Text) (clean : Text → Text) (paths : List Text) (service : Text)
    (now : ℕ) where
  -- The state of the loop over the lines.
  abbrev pub Posting : Type 0
  Posting = Logs fl × List (CountKey × ℕ)

  -- A message behind `cleanService`.
  unfoldable pub post_message : Text → Text → Text → Posting → Posting
  post_message msg svc level (st, counts) =
      let (pool, used) = get fl st.pool svc in
      let st' : Logs fl = record st { pool = pool } in
      let (m, id, ch) = add fl (miner_at fl pool used) (tokenize msg) 1 in
      let mined = with_miner fl cfg used m st' in
      (
        (if is_changed ch
            then template_changed fl cfg (used, id) (template_at m.clusters id) ch now mined
            else mined),
        count_key ((used, id), level) counts,
      )

  unfoldable pub post_line : Posting → Text → Posting
  post_line st line =
      let (msg, svc, level) = fields_of_line line service (extract unquote paths line) in
      post_message msg (clean svc) level st

  -- The last loop, over the counts.
  unfoldable pub add_posted : List (CountKey × ℕ) → Logs fl → Logs fl
  add_posted [] st = st
  add_posted ((((svc, id), level), n) ∷ counts) st =
      add_posted counts (add_log fl cfg hash itoa svc id level (pos now) n st)

  -- `handleLogs`
  unfoldable pub handle_logs : List Text → Bool → Logs fl → Logs fl
  handle_logs lines failed st =
      let r = foldl post_line (mark_start fl cfg hash itoa clean now st, []) lines in
      if failed then r.0 else add_posted r.1 r.0

  abbrev counted : List (CountKey × ℕ) → ℕ
  counted [] = 0
  counted ((k, n) ∷ counts) = n + counted counts

  counted-count_key :
      (k : CountKey) (counts : List (CountKey × ℕ))
      → counted (count_key k counts) ≡ suc (counted counts)
  counted-count_key k [] = omega arith
  counted-count_key k ((j, n) ∷ counts) = ground (arith, counted-count_key k counts)

  -- What a line does to the counter, the registry and the counts.
  abbrev Posts : ℕ → Posting → Posting → Type 0
  Posts n st st' = Keeps fl cfg st.0 st'.0 × (counted st'.1 ≡ counted st.1 + n)

  post_message-Posts :
      (msg svc level : Text) (st : Posting) → Posts 1 st (post_message msg svc level st)
  unfolding post_message
  post_message-Posts msg svc level (st, counts) = (
    if_both {A = Logs fl} (Keeps fl cfg st) _
        (template_changed-Keeps fl cfg _ _ _ now st _ (refl, refl)) (refl, refl),
    counted-count_key _ counts ∙ omega arith,
  )

  post_line-Posts : (st : Posting) (line : Text) → Posts 1 st (post_line st line)
  unfolding post_line
  post_line-Posts st line =
      let f = fields_of_line line service (extract unquote paths line) in
      post_message-Posts f.0 (clean f.1) f.2 st

  post_lines-Posts :
      (lines : List Text) (st : Posting) → Posts (length lines) st (foldl post_line st lines)
  post_lines-Posts [] st = ((refl, refl), omega arith)
  post_lines-Posts (line ∷ lines) st =
      let one = post_line-Posts st line in
      let rest = post_lines-Posts lines (post_line st line) in
      ((rest.0.0 ∙ one.0.0, rest.0.1 ∙ one.0.1), omega (arith, one.1, rest.1))

  add_posted-Gains :
      (counts : List (CountKey × ℕ)) (st : Logs fl)
      → Gains fl cfg hash itoa (counted counts) st (add_posted counts st)
  unfolding add_posted
  add_posted-Gains [] st = (omega arith, refl)
  add_posted-Gains ((((svc, id), level), n) ∷ counts) st =
      let one = add_log-Gains fl cfg hash itoa svc id level (pos now) n st in
      let rest = add_posted-Gains counts (add_log fl cfg hash itoa svc id level (pos now) n st) in
      (omega (arith, one.0, rest.0), rest.1 ∙ one.1)

  mark_start-Keeps : (st : Logs fl) → Keeps fl cfg st (mark_start fl cfg hash itoa clean now st)
  mark_start-Keeps st =
      if_both {A = Logs fl} (Keeps fl cfg st) (st.log_start == 0) (refl, refl) (refl, refl)

  -- The lines of a body that is read to its end are all counted, each once, whatever their format, by
  -- a 64-bit counter; of a body that ends with an error none is. The registry of agents is not
  -- touched.
  pub handle_logs-Gains :
      (lines : List Text) (failed : Bool) (st : Logs fl)
      → Gains fl cfg hash itoa (if failed then 0 else length lines) st (handle_logs lines failed st)
  unfolding handle_logs
  handle_logs-Gains lines failed st = go failed
    where
      begun : Logs fl
      begun = mark_start fl cfg hash itoa clean now st

      r : Posting
      r = foldl post_line (begun, []) lines

      keeps : Keeps fl cfg st begun
      keeps = mark_start-Keeps st

      posts : Posts (length lines) (begun, []) r
      posts = post_lines-Posts lines (begun, [])

      gains : Gains fl cfg hash itoa (counted r.1) r.0 (add_posted r.1 r.0)
      gains = add_posted-Gains r.1 r.0

      go :
          (b : Bool)
          → Gains fl cfg hash itoa
              (if b then 0 else length lines)
              st
              (if b then r.0 else add_posted r.1 r.0)
      go true = (omega (arith, keeps.0, posts.0.0), posts.0.1 ∙ keeps.1)
      go false =
          (omega (arith, keeps.0, posts.0.0, posts.1, gains.0), gains.1 ∙ posts.0.1 ∙ keeps.1)
