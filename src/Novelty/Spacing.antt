-- ===== src/Novelty/Spacing.antt =====
-- eval.go, `evalSignaturesLocked`: how often a signature fires, over rounds.
use self_hosted_anomaly_dete.Common.{
  ℕ, ◌+◌, ◌≤◌, ◌≡◌, ap, Bool, false, not, ◌&&◌, Option, none, some, List, [], ◌∷◌, All, arith,
  if◌then◌else◌, if_cases, inl, inr,
}
use mathlib.Core.Path.{subst}
use mathlib.Core.List.{foldl}
use self_hosted_anomaly_dete.Common.Keys.{nat_eq, list_eq, pair_eq, lookup}
use self_hosted_anomaly_dete.Common.Text.{Text}
use self_hosted_anomaly_dete.Floats.{Floats}
use self_hosted_anomaly_dete.Findings.{Board}
use self_hosted_anomaly_dete.Novelty.{
  Limits, SigKey, Cands, Alarms, sig_every, sig_key, fire_sig, eval_signatures, sweep,
}
use self_hosted_anomaly_dete.Novelty.Moves.{
  recent, has_finding, IsName, state_of, Moves, fires-Moves, sweep_kept,
}

module _ (cfg : Limits) (fl : Floats) (itoa : ℕ → Text) where
  -- A round: its time, what it found in the templates, and the findings that it begins with.
  pub record Turn : Type 0 where
    pub now : ℕ
    pub cands : Cands
    pub board : Board fl

  abbrev Fired : Type 0
  Fired = List (SigKey × ℕ)

  abbrev after : Turn → Fired → Alarms cfg fl itoa
  after t fired = eval_signatures cfg fl itoa t.now t.cands (t.board, fired)

  -- A signature fires in a round that makes its finding.
  abbrev pub fires_in : SigKey → Turn → Fired → Bool
  fires_in sk t fired =
      not (has_finding cfg fl itoa sk t.board) && has_finding cfg fl itoa sk (after t fired).0

  unfoldable pub fire_times : SigKey → List Turn → Fired → List ℕ
  fire_times sk [] fired = []
  fire_times sk (t ∷ ts) fired =
      let rest = fire_times sk ts (after t fired).1 in
      if fires_in sk t fired then t.now ∷ rest else rest

  abbrev pub Since : Option ℕ → List ℕ → Type 0
  Since last [] = Unit
  Since none (t ∷ ts) = Since (some t) ts
  Since (some s) (t ∷ ts) = (s + sig_every ≤ t) × Since (some t) ts

  abbrev pub HasNames : Turn → Type 0
  HasNames t = All (λ c. IsName cfg fl itoa c.0) t.cands

  later-Since :
      (s : ℕ) (o : Option ℕ) (ts : List ℕ)
      → recent cfg fl itoa s o ≡ false
      → Since (some s) ts
      → Since o ts
  later-Since s o [] h k = tt
  later-Since s none (t ∷ ts) h k = k.1
  later-Since s (some r) (t ∷ ts) h k = (ground (arith, h, k.0), k.1)

  fires_Since :
      (o : Option ℕ) (now : ℕ) (rest : List ℕ)
      → recent cfg fl itoa now o ≡ false
      → Since (some now) rest
      → Since o (now ∷ rest)
  fires_Since none now rest h k = k
  fires_Since (some s) now rest h k = (ground (arith, h), k)

  -- Whatever the templates and the findings are in each round, and whatever happens to the findings
  -- between the rounds: the times of the rounds that make the finding of a signature for a service
  -- are 24 hours apart at least, and so is the first of them from the last time that was on record.
  -- The names of services have no byte 255.
  pub fire_times-Since :
      (sk : SigKey) (ts : List Turn) (fired : Fired)
      → IsName cfg fl itoa sk
      → All HasNames ts
      → Since (lookup sk fired) (fire_times sk ts fired)
  unfolding fire_times eval_signatures
  fire_times-Since sk [] fired h hs = tt
  fire_times-Since sk (t ∷ ts) fired h hs =
      go (foldl (fire_sig cfg fl itoa t.now) (t.board, fired) t.cands)
        (fires-Moves cfg fl itoa sk t.now t.cands (t.board, fired) h hs.0)
        (λ f. fire_times-Since sk ts f h hs.1)
    where
      times : Alarms cfg fl itoa → List ℕ
      times a =
          if not (has_finding cfg fl itoa sk t.board)
            && has_finding cfg fl itoa sk (sweep cfg fl itoa t.now a.0.active a.0)
          then t.now ∷ fire_times sk ts a.1
          else fire_times sk ts a.1

      go :
          (a : Alarms cfg fl itoa)
          → Moves cfg fl itoa t.now
              (state_of cfg fl itoa sk (t.board, fired))
              (state_of cfg fl itoa sk a)
          → ((f : Fired) → Since (lookup sk f) (fire_times sk ts f))
          → Since (lookup sk fired) (times a)
      go a (inl e) rest =
          if_cases (Since (lookup sk fired))
            (not (has_finding cfg fl itoa sk t.board)
              && has_finding cfg fl itoa sk (sweep cfg fl itoa t.now a.0.active a.0))
            (λ y. absurd (
              ground (
                arith,
                y,
                ap (λ r. r.1) e,
                sweep_kept cfg fl itoa (sig_key cfg fl itoa sk) t.now a.0.active a.0,
              )))
            (λ n. subst (λ r. Since r (fire_times sk ts a.1)) (ap (λ r. r.0) e) (rest a.1))
      go a (inr m) rest =
          let later : Since (some t.now) (fire_times sk ts a.1) =
            subst (λ r. Since r (fire_times sk ts a.1)) m.0 (rest a.1) in
          if_cases (Since (lookup sk fired))
            (not (has_finding cfg fl itoa sk t.board)
              && has_finding cfg fl itoa sk (sweep cfg fl itoa t.now a.0.active a.0))
            (λ y. fires_Since (lookup sk fired) t.now (fire_times sk ts a.1) m.1 later)
            (λ n. later-Since t.now (lookup sk fired) (fire_times sk ts a.1) m.1 later)
