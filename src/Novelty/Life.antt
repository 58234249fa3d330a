-- ===== src/Novelty/Life.antt =====
-- eval.go, `evalNovelty`: the findings of one template over its life.
use self_hosted_anomaly_dete.Common.{
  ℕ, zero, if_true, if_false, sym, ◌+◌, ◌-◌, ◌&&◌, lt→ltb, ◌≤◌, ◌<◌, ◌≡◌, refl, ap, ◌∙◌, true,
  false, Option, none, some, List, [], ◌∷◌, ◌++◌, ltb, leb, arith, if◌then◌else◌, if_cases, length,
  take, not,
}
use mathlib.Core.Path.{subst}
use self_hosted_anomaly_dete.Common.Text.{Text}
use self_hosted_anomaly_dete.Floats.{Floats}
use self_hosted_anomaly_dete.Ingest.Logs.{Meta, Setup, classify, new_meta}
use self_hosted_anomaly_dete.Ingest.Logs.Counts.{count_meta}
use self_hosted_anomaly_dete.Novelty.{
  Limits, Verdict, quiet, fires, resolves, novel_case, novel_step,
}

-- What happens to a template's metadata: lines of a level, a text that is classified again, and a
-- round.
pub data Act : Type 0 where
  counted : Text → ℕ → Act
  changed : Text → Act
  round : ℕ → Act

abbrev pub all_verdicts : List Verdict
all_verdicts = fires ∷ resolves ∷ []

-- The verdict, where it is one, before the others.
abbrev pub heard : Verdict → List Verdict → List Verdict
heard quiet vs = vs
heard fires vs = fires ∷ vs
heard resolves vs = resolves ∷ vs

module _ (cfg : Limits) (fl : Floats) (setup : Setup fl) where
  unfoldable pub act : Act → Meta → Meta × Verdict
  act (counted level n) m = (count_meta level n m, quiet)
  act (changed text) m = (classify fl setup text m, quiet)
  act (round now) m = novel_step cfg now (record m { sig_lines = zero })

  -- The verdicts of the rounds.
  unfoldable pub verdicts : List Act → Meta → List Verdict
  verdicts [] m = []
  verdicts (a ∷ acts) m = let (m', v) = act a m in heard v (verdicts acts m')

  -- What is still to come of `all_verdicts`.
  abbrev left_of : Option ℕ → List Verdict
  left_of none = all_verdicts
  left_of (some t) = resolves ∷ []

  abbrev to_come : Meta → List Verdict
  to_come m = if m.novel then left_of m.fired else []

  abbrev IsPrefix : List Verdict → List Verdict → Type 0
  IsPrefix vs ws = vs ≡ take (length vs) ws

  prefix_nil : (vs : List Verdict) → IsPrefix vs [] → vs ≡ []
  prefix_nil [] p = refl
  prefix_nil (v ∷ vs) p = p

  -- Of one step: the verdict is the next one, if there is one.
  record Goes (m : Meta) (r : Meta × Verdict) : Type 0 where
    heads : (vs : List Verdict) → IsPrefix vs (to_come r.0) → IsPrefix (heard r.1 vs) (to_come m)

  case-Goes :
      (now : ℕ) (m : Meta) (o : Option ℕ)
      → m.novel ≡ true
      → m.fired ≡ o
      → Goes m (novel_case cfg now (record m { sig_lines = zero }) o)
  unfolding novel_case
  case-Goes now m none e f =
      if_cases (Goes m) (leb cfg.min_lines m.count)
        (λ h. record { heads = λ vs p. ground (arith, e, f, h, p) })
        (λ h.
          if_cases (Goes m) (ltb cfg.window (now - m.made_at))
            (λ k. record { heads = λ vs p. rw (prefix_nil vs p) refl })
            (λ k. record { heads = λ vs p. ground (arith, e, f, p) }))
  case-Goes now m (some t) e f =
      if_cases (Goes m) (ltb cfg.ttl (now - t))
        (λ h. record { heads = λ vs p. ground (arith, e, f, h, p) })
        (λ h. record { heads = λ vs p. ground (arith, e, f, p) })

  act-Goes : (a : Act) (m : Meta) → Goes m (act a m)
  unfolding act count_meta classify novel_step
  act-Goes (counted level n) m = record { heads = λ vs p. p }
  act-Goes (changed text) m = record { heads = λ vs p. p }
  act-Goes (round now) m =
      if_cases (Goes m) (not m.novel) (λ e. record { heads = λ vs p. ground (arith, e, p) })
        (λ e. case-Goes now m m.fired (ground (arith, e)) refl)

  verdicts-IsPrefix : (acts : List Act) (m : Meta) → IsPrefix (verdicts acts m) (to_come m)
  unfolding verdicts
  verdicts-IsPrefix [] m = refl
  verdicts-IsPrefix (a ∷ acts) m =
      (act-Goes a m).heads (verdicts acts (act a m).0) (verdicts-IsPrefix acts (act a m).0)

  -- Whatever lines, new texts and rounds come: a new template that is a novelty fires once at most
  -- and resolves once at most, after it fired; one made before the end of the warm-up does neither.
  pub verdicts-take :
      (acts : List Act) (start now : ℕ)
      → verdicts acts (new_meta fl setup start now)
        ≡ take
            (length (verdicts acts (new_meta fl setup start now)))
            (if ltb 0 start && leb (start + setup.warmup) now then all_verdicts else [])
  verdicts-take acts start now = verdicts-IsPrefix acts (new_meta fl setup start now)

  -- What is to come of a template that fired at `t`, by the end of a round at `u`.
  module _ (t u : ℕ) (late : t + cfg.ttl < u) where
    abbrev Ends : List Act → Meta → Type 0
    Ends acts m =
        m.novel ≡ true → m.fired ≡ some t → verdicts (acts ++ (round u ∷ [])) m ≡ resolves ∷ []

    over_lem : (acts : List Act) (m : Meta) → m.novel ≡ false → verdicts acts m ≡ []
    over_lem acts m e =
        prefix_nil (verdicts acts m)
          (verdicts-IsPrefix acts m ∙ ap (take (length (verdicts acts m))) (ground (arith, e)))

    standing_step :
        (now : ℕ) (m : Meta)
        → m.novel ≡ true
        → m.fired ≡ some t
        → novel_step cfg now m
          ≡ (if ltb cfg.ttl (now - t) then (record m { novel = false }, resolves) else (m, quiet))
    unfolding novel_step novel_case
    standing_step now m e f = rw e (rw f refl)

    round-Ends :
        (now : ℕ) (acts : List Act) (m : Meta)
        → ((m' : Meta) → Ends acts m')
        → Ends (round now ∷ acts) m
    unfolding verdicts act
    round-Ends now acts m rest e f = rw (standing_step now (record m { sig_lines = zero }) e f) (
        if_cases
          (λ (r : Meta × Verdict).
            heard r.1 (verdicts (acts ++ (round u ∷ [])) r.0) ≡ resolves ∷ [])
          (ltb cfg.ttl (now - t))
          (λ h.
            ap (λ vs. resolves ∷ vs)
              (over_lem (acts ++ (round u ∷ [])) (record m { novel = false; sig_lines = zero })
                refl))
          (λ h. rest (record m { sig_lines = zero }) e f))

    verdicts-Ends : (acts : List Act) (m : Meta) → Ends acts m
    unfolding verdicts act count_meta classify
    verdicts-Ends [] m e f =
        rw (standing_step u (record m { sig_lines = zero }) e f)
          (rw (lt→ltb cfg.ttl (u - t) (omega (arith, late))) refl)
    verdicts-Ends (counted level n ∷ acts) m e f = verdicts-Ends acts (count_meta level n m) e f
    verdicts-Ends (changed text ∷ acts) m e f = verdicts-Ends acts (classify fl setup text m) e f
    verdicts-Ends (round now ∷ acts) m e f = round-Ends now acts m (λ m'. verdicts-Ends acts m') e f

  firing_step :
      (now : ℕ) (m : Meta)
      → m.novel ≡ true
      → m.fired ≡ none
      → leb cfg.min_lines m.count ≡ true
      → novel_step cfg now m ≡ (record m { fired = some now }, fires)
  unfolding novel_step novel_case
  firing_step now m e f full =
      if_false (not m.novel) _ _ (rw e refl)
      ∙ ap (novel_case cfg now m) f
      ∙ if_true (leb cfg.min_lines m.count) _ _ full

  -- A novelty with enough lines fires in the next round, and, whatever comes after, has resolved
  -- when a round comes later than its time to live.
  pub verdicts_end :
      (t u : ℕ) (acts : List Act) (m : Meta)
      → m.novel ≡ true
      → m.fired ≡ none
      → cfg.min_lines ≤ m.count
      → t + cfg.ttl < u
      → verdicts (round t ∷ (acts ++ (round u ∷ []))) m ≡ all_verdicts
  unfolding verdicts act
  verdicts_end t u acts m e f h late =
      let full : leb cfg.min_lines m.count ≡ true = ground (arith, h) in
      subst
        (λ (r : Meta × Verdict). heard r.1 (verdicts (acts ++ (round u ∷ [])) r.0) ≡ all_verdicts)
        (sym (firing_step t (record m { sig_lines = zero }) e f full))
        (ap (λ vs. fires ∷ vs)
          (verdicts-Ends t u late acts (record m { fired = some t; sig_lines = zero }) e refl))
