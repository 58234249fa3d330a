-- ===== src/Rounds/Sound.antt =====
-- eval.go, `Evaluate`: what every round leaves as it must be.
use self_hosted_anomaly_dete.Common.{
  ℕ, suc, ◌≡◌, refl, sym, ap, ◌∙◌, Bool, true, false, Option, none, some, List, [], ◌∷◌, length,
  arith, if◌then◌else◌,
}
use self_hosted_anomaly_dete.Common.Int.{ℤ}
use self_hosted_anomaly_dete.Common.Keys.{nat_eq, list_eq, pair_eq, lookup, IsMap}
use self_hosted_anomaly_dete.Common.Text.{Text}
use self_hosted_anomaly_dete.Floats.{Floats}
use self_hosted_anomaly_dete.Store.{Key, Store}
use self_hosted_anomaly_dete.Store.Count
use self_hosted_anomaly_dete.Eval.{Info, Event, fire, update, resolve}
use self_hosted_anomaly_dete.Findings.{
  Finding, Board, finding_key, subject_of, fill, new_finding, apply_found, apply_event, apply,
}
use self_hosted_anomaly_dete.Findings.Steps
use self_hosted_anomaly_dete.Findings.Steps.{insert-IsSound, resolve_locked-IsSound}
use self_hosted_anomaly_dete.Ingest.Logs.{Meta}
use self_hosted_anomaly_dete.Novelty.{
  TmplKey, Cands, Verdict, quiet, fires, resolves, add_verdict, offer_all, novel_step, scan, Scan,
  eval_novelty,
}
use self_hosted_anomaly_dete.Novelty.Expiry.{eval_novelty_lem}
use self_hosted_anomaly_dete.Gc.{gc-Cleans}
use self_hosted_anomaly_dete.Alerts.{
  Alert, Sent, send_alerts, alerts_of, post_all, mark_sent, is_delivered,
}
use self_hosted_anomaly_dete.Rounds.{apply_all, evaluate}
use self_hosted_anomaly_dete.Rounds.Stores.{keys_of, IsMap_keys, run-IsSound, run_prom-IsSound}
use self_hosted_anomaly_dete.Rounds.Whole.{
  Engine, Setup, Moment, evaluate_whole, open_at, if_started,
}

-- The stores and the board of findings are sound, and no template has metadata twice.
pub record IsSound {fl : Floats} (e : Engine fl) : Type 0 where
  pub prom : Count.IsSound e.prom
  pub logs : Count.IsSound e.logs
  pub board : Steps.IsSound e.board
  pub tmpl : IsMap e.tmpl

module _ (fl : Floats) (sort : List fl.F → List fl.F) (mad_factor : fl.F) (itoa : ℕ → Text)
    (cfg : Setup fl) (seen : ℤ → Bool) where
  module _ (now : ℕ) where
    apply_found-IsSound :
        (key : Key) (board : Board fl) (h : Steps.IsSound board) (e : Event fl)
        (o : Option (Finding fl))
        → lookup (finding_key key (subject_of fl e)) board.active ≡ o
        → Steps.IsSound (apply_found fl now key board e o)
    unfolding apply_found new_finding fill
    apply_found-IsSound key board h (fire s d) o p =
        insert-IsSound fl board h (finding_key key s) (new_finding fl (finding_key key s) d now)
          refl
    apply_found-IsSound key board h (update s d) none p = h
    apply_found-IsSound key board h (update s d) (some f) p =
        insert-IsSound fl board h (finding_key key s) (record (fill fl f d) { updated_at = now })
          (h.own (finding_key key s) f p)
    apply_found-IsSound key board h (resolve s) none p = h
    apply_found-IsSound key board h (resolve s) (some f) p = resolve_locked-IsSound fl board h now f

    apply_event-IsSound :
        (key : Key) (e : Event fl) (board : Board fl)
        → Steps.IsSound board
        → Steps.IsSound (apply_event fl now key board e)
    unfolding apply_event
    apply_event-IsSound key e board h =
        apply_found-IsSound key board h e (lookup (finding_key key (subject_of fl e)) board.active)
          refl

    apply-IsSound :
        (key : Key) (es : List (Event fl)) (board : Board fl)
        → Steps.IsSound board
        → Steps.IsSound (apply fl now key board es)
    unfolding apply
    apply-IsSound key [] board h = h
    apply-IsSound key (e ∷ es) board h =
        apply-IsSound key es (apply_event fl now key board e) (apply_event-IsSound key e board h)

    apply_all-IsSound :
        (es : List (Key × List (Event fl))) (board : Board fl)
        → Steps.IsSound board
        → Steps.IsSound (apply_all fl sort mad_factor cfg.series seen now board es)
    unfolding apply_all
    apply_all-IsSound [] board h = h
    apply_all-IsSound ((key, e) ∷ es) board h =
        apply_all-IsSound es (apply fl now key board e) (apply-IsSound key e board h)

    keys_of-scan :
        (ms : List (TmplKey × Meta)) (cands : Cands)
        → keys_of (scan cfg.novelty now ms cands).tmpl ≡ keys_of ms
    unfolding scan
    keys_of-scan [] cands = refl
    keys_of-scan ((k, m) ∷ ms) cands =
        let rest = scan cfg.novelty now ms (offer_all cfg.novelty k m cands) in
        add (novel_step cfg.novelty now (record m { sig_lines = 0 })) rest
        ∙ ap (λ ks. k ∷ ks) (keys_of-scan ms (offer_all cfg.novelty k m cands))
      where
        add :
            (mv : Meta × Verdict) (r : Scan cfg.novelty)
            → keys_of (add_verdict cfg.novelty k mv r).tmpl ≡ k ∷ keys_of r.tmpl
        add (m', quiet) r = refl
        add (m', fires) r = refl
        add (m', resolves) r = refl

    length-mark_sent : (fs : List (Finding fl)) → length (mark_sent fl fs) ≡ length fs
    unfolding mark_sent
    length-mark_sent [] = refl
    length-mark_sent (f ∷ fs) = ap (λ n. suc n) (length-mark_sent fs)

    marked-IsSound :
        (b : Bool) (board : Board fl)
        → Steps.IsSound board
        → Steps.IsSound
            (if b then record board { resolved = mark_sent fl board.resolved } else board)
    marked-IsSound true board h = record {
      distinct = h.distinct;
      own = h.own;
      capped = omega (arith, h.capped, length-mark_sent board.resolved);
    }
    marked-IsSound false board h = h

    post_all-IsSound :
        (oks : List Bool) (alerts : List (Alert fl)) (board : Board fl) (sent : Sent)
        → Steps.IsSound board
        → Steps.IsSound (post_all fl oks alerts (board, sent)).0
    unfolding post_all
    post_all-IsSound oks [] board sent h = h
    post_all-IsSound oks (a ∷ alerts) board sent h = marked-IsSound (is_delivered fl oks) board h

    send_alerts-IsSound :
        (oks : List Bool) (board : Board fl) (sent : Sent)
        → Steps.IsSound board
        → Steps.IsSound (send_alerts fl cfg.eval_interval now oks (board, sent)).1
    unfolding send_alerts
    send_alerts-IsSound [] board sent h = h
    send_alerts-IsSound (ok ∷ oks) board sent h =
        post_all-IsSound (ok ∷ oks) (alerts_of fl cfg.eval_interval now board) board sent h

  -- What a round does with the findings before the alerts.
  abbrev judged : Moment fl → Engine fl → Store fl (Info fl) × Store fl (Info fl) × Board fl
  judged t e =
      evaluate fl sort mad_factor cfg.series seen
        (if_started fl sort mad_factor itoa cfg seen t.prom_clock)
        (open_at fl sort mad_factor itoa cfg seen t.now) t.now (e.prom, e.logs, e.board)

  record Judged (r : Store fl (Info fl) × Store fl (Info fl) × Board fl) : Type 0 where
    prom : Count.IsSound r.0
    logs : Count.IsSound r.1
    board : Steps.IsSound r.2

  judged-Judged : (t : Moment fl) (e : Engine fl) → IsSound e → Judged (judged t e)
  unfolding evaluate
  judged-Judged t e h = record {
    prom =
        run_prom-IsSound fl sort mad_factor cfg.series seen
          (if_started fl sort mad_factor itoa cfg seen t.prom_clock) e.prom h.prom;
    logs =
        run-IsSound fl sort mad_factor cfg.series seen true
          (open_at fl sort mad_factor itoa cfg seen t.now) e.logs h.logs;
    board = apply_all-IsSound t.now _ e.board h.board;
  }

  -- A round of `Evaluate` with all that it calls keeps the server sound, whatever the miners hold
  -- and the Alertmanagers answer: both stores count their series rightly and hold no key twice,
  -- each finding stands under its own key, no more than 500 resolved ones are kept, and no template
  -- has metadata twice.
  pub evaluate_whole-IsSound :
      (t : Moment fl) (e : Engine fl)
      → IsSound e
      → IsSound (evaluate_whole fl sort mad_factor itoa cfg seen t e).1
  unfolding evaluate_whole eval_novelty
  evaluate_whole-IsSound t e h =
      let j = judged-Judged t e h in
      let r = judged t e in
      let novel = eval_novelty_lem cfg.novelty fl itoa t.now e.tmpl (r.2, e.sig_fired) j.board in
      let after = eval_novelty cfg.novelty fl itoa t.now e.tmpl (r.2, e.sig_fired) in
      let cleans =
        gc-Cleans fl (λ k. 0) (open_at fl sort mad_factor itoa cfg seen t.prom_clock)
          (open_at fl sort mad_factor itoa cfg seen t.now) cfg.log_season t.pool
          (record { runs = e.gc_runs; tmpl = after.0; prom = r.0; logs = r.1 }) j.prom j.logs
          (IsMap_keys e.tmpl after.0 (sym (keys_of-scan t.now e.tmpl [])) h.tmpl) in
      record {
        prom = cleans.prom_sound;
        logs = cleans.logs_sound;
        board = send_alerts-IsSound t.now t.oks after.1.0 e.sent novel.0;
        tmpl = cleans.tmpl_map;
      }
