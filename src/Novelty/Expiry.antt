-- ===== src/Novelty/Expiry.antt =====
-- eval.go, `evalNovelty` and `evalSignaturesLocked`: the findings after a round.
use self_hosted_anomaly_dete.Common.{
  ℕ, ◌≡◌, refl, ap, Bool, true, false, ◌||◌, Option, none, some, List, [], ◌∷◌, arith,
  if◌then◌else◌, if_cases, if_both, Bool-cases, inl, inr,
}
use mathlib.Core.List.{foldl}
use self_hosted_anomaly_dete.Common.Keys.{
  nat_eq, list_eq, pair_eq, list_beq, list_beq_iff, lookup, lookup-delete, IsMap, has_key,
}
use self_hosted_anomaly_dete.Common.Text.{Text}
use self_hosted_anomaly_dete.Floats.{Floats}
use self_hosted_anomaly_dete.Store.{Key}
use self_hosted_anomaly_dete.Eval.{log_new, log_signature}
use self_hosted_anomaly_dete.Findings.{Finding, Board, resolve_locked}
use self_hosted_anomaly_dete.Findings.Steps.{IsSound, insert-IsSound, resolve_locked-IsSound}
use self_hosted_anomaly_dete.Ingest.Logs.{Meta}
use self_hosted_anomaly_dete.Novelty.{
  Limits, TmplKey, Cands, Alarms, is_recent, new_key, sig_key, count_finding, fire_new,
  resolve_found, resolve_new, fire_sig, is_over, sweep, scan, eval_signatures, eval_novelty,
}

module _ (cfg : Limits) (fl : Floats) (itoa : ℕ → Text) (now : ℕ) where
  abbrev over : Finding fl → Bool
  over = is_over cfg fl itoa now

  -- The findings under their keys, among which are those of `board` that are over.
  abbrev Lists : List (Key × Finding fl) → Board fl → Type 0
  Lists fs board =
      (k : Key) (f : Finding fl)
      → lookup k board.active ≡ some f
      → over f ≡ true
      → lookup k fs ≡ some f

  abbrev HasNone : Board fl → Type 0
  HasNone board = (k : Key) (f : Finding fl) → lookup k board.active ≡ some f → over f ≡ false

  abbrev Owned : List (Key × Finding fl) → Type 0
  Owned fs = (k : Key) (f : Finding fl) → lookup k fs ≡ some f → f.key ≡ k

  Owned-tail :
      (j : Key) (g : Finding fl) (fs : List (Key × Finding fl))
      → lookup j fs ≡ none
      → Owned ((j, g) ∷ fs)
      → Owned fs
  Owned-tail j g fs new own k f e = ground (arith, new, own k f, e, list_beq_iff j k)

  Lists-resolved :
      (j : Key) (g : Finding fl) (fs : List (Key × Finding fl)) (board : Board fl)
      → IsSound board
      → g.key ≡ j
      → Lists ((j, g) ∷ fs) board
      → Lists fs (resolve_locked fl now board g)
  unfolding resolve_locked
  Lists-resolved j g fs board sound own listed k f e h = ground (
    arith,
    own,
    listed k f,
    h,
    e,
    lookup-delete g.key k board.active sound.distinct,
    list_beq_iff j k,
  )

  Lists-kept :
      (j : Key) (g : Finding fl) (fs : List (Key × Finding fl)) (board : Board fl)
      → over g ≡ false
      → Lists ((j, g) ∷ fs) board
      → Lists fs board
  Lists-kept j g fs board young listed k f e h = kept (list_beq j k) (lookup k fs) (listed k f e h)
    where
      over_some : Option (Finding fl) → Bool
      over_some none = false
      over_some (some f) = over f

      kept : (b : Bool) (o : Option (Finding fl)) → (if b then some g else o) ≡ some f → o ≡ some f
      kept true o p = absurd (ground (arith, young, h, ap over_some p))
      kept false o p = p

  sweep_lem :
      (fs : List (Key × Finding fl)) (board : Board fl)
      → IsMap fs
      → Owned fs
      → IsSound board
      → Lists fs board
      → IsSound (sweep cfg fl itoa now fs board) × HasNone (sweep cfg fl itoa now fs board)
  unfolding sweep
  sweep_lem [] board map own sound listed = (
    sound,
    λ k f e. elim (Bool-cases (over f)) [
      | inl y ↦ absurd (ground (arith, listed k f e y))
      | inr n ↦ n
    ],
  )
  sweep_lem ((j, g) ∷ fs) board map own sound listed =
      if_cases (λ b. IsSound (sweep cfg fl itoa now fs b) × HasNone (sweep cfg fl itoa now fs b))
        (over g)
        (λ y.
          sweep_lem fs (resolve_locked fl now board g) map.1 (Owned-tail j g fs map.0 own)
            (resolve_locked-IsSound fl board sound now g)
            (Lists-resolved j g fs board sound (own j g (ground (arith, list_beq_iff j j))) listed))
        (λ n.
          sweep_lem fs board map.1 (Owned-tail j g fs map.0 own) sound
            (Lists-kept j g fs board n listed))

  fires-IsSound :
      (cs : Cands) (a : Alarms cfg fl itoa)
      → IsSound a.0
      → IsSound (foldl (fire_sig cfg fl itoa now) a cs).0
  unfolding fire_sig
  fires-IsSound [] a sound = sound
  fires-IsSound ((sk, c) ∷ cs) a sound = fires-IsSound cs (fire_sig cfg fl itoa now a (sk, c)) (
      if_both (λ (b : Alarms cfg fl itoa). IsSound b.0)
        (has_key (sig_key cfg fl itoa sk) a.0.active || is_recent cfg fl itoa now (lookup sk a.1))
        sound
        (insert-IsSound fl a.0 sound (sig_key cfg fl itoa sk)
          (count_finding cfg fl itoa log_signature (sig_key cfg fl itoa sk) c.lines now) refl))

  eval_signatures_lem :
      (cs : Cands) (a : Alarms cfg fl itoa)
      → IsSound a.0
      → IsSound (eval_signatures cfg fl itoa now cs a).0
        × HasNone (eval_signatures cfg fl itoa now cs a).0
  unfolding eval_signatures
  eval_signatures_lem cs a sound =
      let fired = fires-IsSound cs a sound in
      let board = (foldl (fire_sig cfg fl itoa now) a cs).0 in
      sweep_lem board.active board fired.distinct fired.own fired (λ k f e h. e)

  news-IsSound :
      (ks : List (TmplKey × ℕ)) (board : Board fl)
      → IsSound board
      → IsSound (foldl (fire_new cfg fl itoa now) board ks)
  news-IsSound [] board sound = sound
  news-IsSound ((k, n) ∷ ks) board sound = news-IsSound ks (fire_new cfg fl itoa now board (k, n)) (
      insert-IsSound fl board sound (new_key cfg fl itoa k)
        (count_finding cfg fl itoa log_new (new_key cfg fl itoa k) n now) refl)

  resolve_found-IsSound :
      (board : Board fl) (o : Option (Finding fl))
      → IsSound board
      → IsSound (resolve_found cfg fl itoa now board o)
  resolve_found-IsSound board none sound = sound
  resolve_found-IsSound board (some f) sound = resolve_locked-IsSound fl board sound now f

  resolves-IsSound :
      (ks : List TmplKey) (board : Board fl)
      → IsSound board
      → IsSound (foldl (resolve_new cfg fl itoa now) board ks)
  resolves-IsSound [] board sound = sound
  resolves-IsSound (k ∷ ks) board sound =
      resolves-IsSound ks (resolve_new cfg fl itoa now board k)
        (resolve_found-IsSound board (lookup (new_key cfg fl itoa k) board.active) sound)

  -- A round over new templates and signatures keeps the findings under their own keys, once each,
  -- and no more resolved ones than the cap; after it no signature's finding is older than the time
  -- to live.
  pub eval_novelty_lem :
      (tmpl : List (TmplKey × Meta)) (a : Alarms cfg fl itoa)
      → IsSound a.0
      → IsSound (eval_novelty cfg fl itoa now tmpl a).1.0
        × ((k : Key) (f : Finding fl)
            → lookup k (eval_novelty cfg fl itoa now tmpl a).1.0.active ≡ some f
            → is_over cfg fl itoa now f ≡ false)
  unfolding eval_novelty
  eval_novelty_lem tmpl (board, fired) sound =
      let r = scan cfg now tmpl [] in
      let after_new = news-IsSound r.fire board sound in
      eval_signatures_lem r.cands
        (
          foldl (resolve_new cfg fl itoa now) (foldl (fire_new cfg fl itoa now) board r.fire)
              r.resolve,
          fired,
        )
        (resolves-IsSound r.resolve (foldl (fire_new cfg fl itoa now) board r.fire) after_new)
