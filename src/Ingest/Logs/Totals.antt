-- ===== src/Ingest/Logs/Totals.antt =====
-- ingest.go, `handlePush`: what the counters say of the lines of a push.
use self_hosted_anomaly_dete.Common.{
  ℕ, ◌+◌, ◌%◌, ◌^◌, ◌<◌, ◌≡◌, refl, sym, ap₂, ◌∙◌, Bool, true, false, Option, none, some, List, [],
  ◌∷◌, ◌==◌, if◌then◌else◌, arith, if_both, if_cases,
}
use mathlib.Core.Path.{subst}
use self_hosted_anomaly_dete.Common.Int.{ℤ, pos, negsuc}
use self_hosted_anomaly_dete.Common.Keys.{nat_eq, list_eq, pair_eq, lookup}
use self_hosted_anomaly_dete.Common.Text.{Text, bytes}
use self_hosted_anomaly_dete.Floats.{Floats}
use self_hosted_anomaly_dete.Store.{Key}
use self_hosted_anomaly_dete.Logparse.Levels.{level_of, name_of}
use self_hosted_anomaly_dete.Agents.{record_push, reject}
use self_hosted_anomaly_dete.Wire.{Item, Push}
use self_hosted_anomaly_dete.Ingest.{is_positive}
use self_hosted_anomaly_dete.Ingest.Logs.{Meta, Logs, Setup, global_template}
use self_hosted_anomaly_dete.Ingest.Logs.Counts.{
  Taken, add_log, add_count, add_counts, count_template, take_item, take_items, finish_item,
  start_items, is_bad_step, handle_push, total_in, lines_in, is_valid, limit_at, level_or,
}
use self_hosted_anomaly_dete.Ingest.Logs.Templates.{Keeps, global_template-Keeps}

-- The lines of the counts, in full.
abbrev pub sum_in : ℤ → List (ℤ × ℤ) → ℕ
sum_in limit [] = 0
sum_in limit (c ∷ cs) = lines_in limit c + sum_in limit cs

total_in-sum_in :
    (limit : ℤ) (cs : List (ℤ × ℤ)) → sum_in limit cs < 2 ^ 63 → total_in limit cs ≡ sum_in limit cs
total_in-sum_in limit [] h = refl
total_in-sum_in limit (c ∷ cs) h = omega (arith, total_in-sum_in limit cs)

-- The lines of an item with a template, and of all of them.
abbrev pub lines_of_item : ℤ → Text → List (ℤ × ℤ) → ℕ
lines_of_item limit [] counts = 0
lines_of_item limit (c ∷ text) counts = sum_in limit counts

abbrev pub lines_of_items : ℤ → List Item → ℕ
lines_of_items limit [] = 0
lines_of_items limit (it ∷ items) =
    lines_of_item limit it.template it.counts + lines_of_items limit items

module _ (fl : Floats) (cfg : Setup fl) (hash : Key → ℕ) (itoa : ℕ → Text) where
  -- The counter, which is an `int64`, goes up by `n`, and the registry stays.
  abbrev pub Gains : ℕ → Logs fl → Logs fl → Type 0
  Gains n st st' = (st'.log_lines % 2 ^ 64 ≡ (st.log_lines + n) % 2 ^ 64) × (st'.agents ≡ st.agents)

  count_template-Keeps :
      (level : Text) (n : ℕ) (o : Option Meta) (k : Text × ℕ) (st : Logs fl)
      → Keeps fl cfg st (count_template fl cfg hash itoa level n o k st)
  count_template-Keeps level n none k st = (refl, refl)
  count_template-Keeps level n (some m) k st = (refl, refl)

  pub add_log-Gains :
      (svc : Text) (id : ℕ) (level : Text) (ts : ℤ) (n : ℕ) (st : Logs fl)
      → Gains n st (add_log fl cfg hash itoa svc id level ts n st)
  unfolding add_log
  add_log-Gains svc id level ts n st =
      let keeps = count_template-Keeps (level_or level) n (lookup (svc, id) st.tmpl) (svc, id) st in
      (omega (arith, keeps.0), keeps.1)

  add_count-Gains :
      (max : ℤ) (svc : Text) (id : ℕ) (level : Text) (c : ℤ × ℤ) (st : Logs fl)
      → Gains (lines_in max c) st (add_count fl cfg hash itoa max svc id level c st)
  add_count-Gains max svc id level (ts, negsuc n) st = (omega arith, refl)
  add_count-Gains max svc id level (ts, pos n) st = go (is_valid max (ts, pos n))
    where
      go :
          (b : Bool)
          → Gains
              (if b then n else 0)
              st
              (if b then add_log fl cfg hash itoa svc id level ts n st else st)
      go true = add_log-Gains svc id level ts n st
      go false = (omega arith, refl)

  add_counts-Gains :
      (max : ℤ) (svc : Text) (id : ℕ) (level : Text) (cs : List (ℤ × ℤ)) (st : Logs fl)
      → Gains (sum_in max cs) st (add_counts fl cfg hash itoa max svc id level cs st)
  unfolding add_counts
  add_counts-Gains max svc id level [] st = (omega arith, refl)
  add_counts-Gains max svc id level (c ∷ cs) st =
      let one = add_count-Gains max svc id level c st in
      let rest =
        add_counts-Gains max svc id level cs (add_count fl cfg hash itoa max svc id level c st) in
      (omega (arith, one.0, rest.0), rest.1 ∙ one.1)

  module _ (clean : Text → Text) (now : ℕ) where
    -- The counter and the lines that are reported to the registry, after items.
    abbrev Counted : ℕ → Taken fl cfg hash itoa → Taken fl cfg hash itoa → Type 0
    Counted n t t' = Gains n t.logs t'.logs × (t'.lines ≡ t.lines + n)

    finish_item-Counted :
        (svc : Text) (n : ℕ) (st : Logs fl) (t : Taken fl cfg hash itoa)
        → Gains n t.logs st
        → t.lines + n < 2 ^ 63
        → Counted n t (finish_item fl cfg hash itoa clean now svc n st t)
    finish_item-Counted svc n st t h small =
        if_cases {A = Taken fl cfg hash itoa} (Counted n t) (is_positive n)
          (λ e. (h, omega (arith, small))) (λ e. (h, ground (arith, e, small)))

    take_item-Counted :
        (t : Taken fl cfg hash itoa) (it : Item)
        → t.lines + lines_of_item (limit_at now) it.template it.counts < 2 ^ 63
        → Counted
            (lines_of_item (limit_at now) it.template it.counts)
            t
            (take_item fl cfg hash itoa clean now t it)
    unfolding take_item
    take_item-Counted t it small = go it.template small
      where
        total : ℕ
        total = total_in (limit_at now) it.counts

        r : Logs fl × Text × ℕ
        r = global_template fl cfg clean it.service it.template total now t.logs

        st : Logs fl
        st =
            add_counts fl cfg hash itoa (limit_at now) r.1 r.2 (bytes (name_of (level_of it.level)))
              it.counts r.0

        sum : ℕ
        sum = sum_in (limit_at now) it.counts

        gains : Gains sum t.logs st
        gains =
            let keeps =
              global_template-Keeps fl cfg clean it.service it.template total now t.logs in
            let adds =
              add_counts-Gains (limit_at now) r.1 r.2 (bytes (name_of (level_of it.level)))
                it.counts r.0 in
            (omega (arith, adds.0, keeps.0), adds.1 ∙ keeps.1)

        go :
            (text : Text)
            → t.lines + lines_of_item (limit_at now) text it.counts < 2 ^ 63
            → Counted (lines_of_item (limit_at now) text it.counts) t (elim text [
              | [] ↦ t
              | c ∷ s ↦ finish_item fl cfg hash itoa clean now r.1 total st t
            ])
        go [] k = ((omega arith, refl), omega arith)
        go (c ∷ s) k =
            let same : total ≡ sum = total_in-sum_in (limit_at now) it.counts (omega arith) in
            subst (λ n. Counted n t (finish_item fl cfg hash itoa clean now r.1 total st t)) same
              (finish_item-Counted r.1 total st t (subst (λ n. Gains n t.logs st) (sym same) gains)
                (omega (arith, same, k)))

    take_items-Counted :
        (items : List Item) (t : Taken fl cfg hash itoa)
        → t.lines + lines_of_items (limit_at now) items < 2 ^ 63
        → Counted
            (lines_of_items (limit_at now) items)
            t
            (take_items fl cfg hash itoa clean now t items)
    unfolding take_items
    take_items-Counted [] t small = ((omega arith, refl), omega arith)
    take_items-Counted (it ∷ items) t small =
        let one = take_item-Counted t it (omega arith) in
        let rest =
          take_items-Counted items (take_item fl cfg hash itoa clean now t it)
            (omega (arith, one.1, small)) in
        ((omega (arith, one.0.0, rest.0.0), rest.0.1 ∙ one.0.1), omega (arith, one.1, rest.1))

    start_items-Keeps :
        (items : List Item) (st : Logs fl)
        → Keeps fl cfg st (start_items fl cfg hash itoa clean now items st)
    start_items-Keeps [] st = (refl, refl)
    start_items-Keeps (it ∷ items) st =
        if_both {A = Logs fl} (Keeps fl cfg st) (st.log_start == 0) (refl, refl) (refl, refl)

    -- What the counter and the registry say of a push, by whether its step is bad.
    pub record Accounts (clean_agent : Text → Text) (overflow : Text) (p : Push) (st : Logs fl)
        (bad : Bool) (st' : Logs fl) : Type 0 where
      pub counted :
          st'.log_lines % 2 ^ 64
          ≡ (st.log_lines + (if bad then 0 else lines_of_items (limit_at now) p.items)) % 2 ^ 64
      pub reported :
          (svcs : List Text) × (st'.agents ≡ (
            if bad
            then reject clean_agent overflow p.agent p.step now st.agents
            else record_push clean_agent overflow p.agent p.step
                (lines_of_items (limit_at now) p.items)
                svcs
                now
                st.agents))

    Accounts-both :
        (clean_agent : Text → Text) (overflow : Text) (p : Push) (st refused done : Logs fl)
        (bad : Bool)
        → Accounts clean_agent overflow p st true refused
        → Accounts clean_agent overflow p st false done
        → Accounts clean_agent overflow p st bad (if bad then refused else done)
    Accounts-both clean_agent overflow p st refused done true h k = h
    Accounts-both clean_agent overflow p st refused done false h k = k

    -- A push whose step divides the server's (or is 0) is recorded, under its agent, with exactly
    -- the lines that the server's counter goes up by: the positive counts, dated no later than
    -- `maxTS`, of the items that have a template. Of another push the server counts no line and
    -- notes the refusal. Those lines are fewer than 2^63; the counter is an `int64` and may wrap.
    pub handle_push-Accounts :
        (clean_agent : Text → Text) (overflow : Text) (p : Push) (st : Logs fl)
        → lines_of_items (limit_at now) p.items < 2 ^ 63
        → Accounts clean_agent overflow p st
            (is_bad_step fl cfg hash itoa clean now p.step)
            (handle_push fl cfg hash itoa clean now clean_agent overflow p st)
    unfolding handle_push
    handle_push-Accounts clean_agent overflow p st small =
        Accounts-both clean_agent overflow p st _ _ (is_bad_step fl cfg hash itoa clean now p.step)
          (record { counted = omega arith; reported = ([], refl) })
          (record {
            counted = omega (arith, all.0.0, keeps.0);
            reported = (t.services, reports t (all.0.1 ∙ keeps.1) all.1);
          })
      where
        lines : ℕ
        lines = lines_of_items (limit_at now) p.items

        begun : Logs fl
        begun =
            start_items fl cfg hash itoa clean now p.items (record st { pushes = st.pushes + 1 })

        keeps : Keeps fl cfg (record st { pushes = st.pushes + 1 }) begun
        keeps = start_items-Keeps p.items (record st { pushes = st.pushes + 1 })

        start : Taken fl cfg hash itoa
        start = record { logs = begun; lines = 0; services = [] }

        t : Taken fl cfg hash itoa
        t = take_items fl cfg hash itoa clean now start p.items

        all : Counted lines start t
        all = take_items-Counted p.items start (omega (arith, small))

        none_before : (n : ℕ) → 0 + n ≡ n
        none_before n = omega arith

        reports :
            (u : Taken fl cfg hash itoa)
            → u.logs.agents ≡ st.agents
            → u.lines ≡ 0 + lines
            → record_push clean_agent overflow p.agent p.step u.lines u.services now u.logs.agents
              ≡ record_push clean_agent overflow p.agent p.step lines u.services now st.agents
        reports u a l =
            ap₂ (λ n r. record_push clean_agent overflow p.agent p.step n u.services now r)
              (l ∙ none_before lines) a
