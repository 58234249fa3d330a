-- ===== src/State/Spacing.antt =====
-- state.go: the times of the signatures' findings over a restart.
use self_hosted_anomaly_dete.Common.{
  ℕ, ◌-◌, ◌≤◌, ◌≡◌, refl, ap, ◌∙◌, Option, none, some, List, [], ◌∷◌, ltb, arith, if◌then◌else◌,
  if_both,
}
use self_hosted_anomaly_dete.Common.Keys.{
  nat_eq, list_eq, pair_eq, pair_beq_iff, lookup, insert, lookup-insert, IsMap,
}
use self_hosted_anomaly_dete.Common.Text.{Text}
use self_hosted_anomaly_dete.Floats.{Floats}
use self_hosted_anomaly_dete.Novelty.{Limits, SigKey, sig_every, is_recent}
use self_hosted_anomaly_dete.State.{save_fired}
use self_hosted_anomaly_dete.State.Restart.{load_fired}

abbrev kept : ℕ → Option ℕ → Option ℕ
kept now none = none
kept now (some at) = if ltb (now - at) sig_every then some at else none

lookup-save_fired :
    (now : ℕ) (sk : SigKey) (fired : List (SigKey × ℕ))
    → IsMap fired
    → lookup sk (save_fired now fired) ≡ kept now (lookup sk fired)
unfolding save_fired
lookup-save_fired now sk [] h = refl
lookup-save_fired now sk ((j, at) ∷ fired) h =
    ground (arith, h, pair_beq_iff j sk, lookup-save_fired now sk fired h.1)

save_fired-IsMap :
    (now : ℕ) (fired : List (SigKey × ℕ)) → IsMap fired → IsMap (save_fired now fired)
unfolding save_fired
save_fired-IsMap now [] h = tt
save_fired-IsMap now ((j, at) ∷ fired) h =
    let rest = save_fired-IsMap now fired h.1 in
    if_both IsMap (ltb (now - at) sig_every)
      (lookup-save_fired now j fired h.1 ∙ ap (kept now) h.0, rest) rest

abbrev first_of : Option ℕ → Option ℕ → Option ℕ
first_of none o = o
first_of (some at) o = some at

lookup-load_fired :
    (sk : SigKey) (snaps fired : List (SigKey × ℕ))
    → IsMap snaps
    → lookup sk (load_fired fired snaps) ≡ first_of (lookup sk snaps) (lookup sk fired)
unfolding load_fired
lookup-load_fired sk [] fired h = refl
lookup-load_fired sk ((j, at) ∷ snaps) fired h = ground (
  arith,
  h,
  pair_beq_iff j sk,
  lookup-insert j sk at fired,
  lookup-load_fired sk snaps (insert j at fired) h.1,
)

module _ (cfg : Limits) (fl : Floats) (itoa : ℕ → Text) where
  -- A restart does not let a signature fire early: what a server that starts anew loads of the
  -- times that were saved at `now` says at each later time of each signature what they said,
  -- whether it fired less than 24 hours ago.
  pub is_recent-load_fired :
      (now later : ℕ) (sk : SigKey) (fired : List (SigKey × ℕ))
      → IsMap fired
      → now ≤ later
      → is_recent cfg fl itoa later (lookup sk (load_fired [] (save_fired now fired)))
        ≡ is_recent cfg fl itoa later (lookup sk fired)
  is_recent-load_fired now later sk fired h l =
      ap (is_recent cfg fl itoa later) (
        lookup-load_fired sk (save_fired now fired) [] (save_fired-IsMap now fired h)
        ∙ ap (λ o. first_of o none) (lookup-save_fired now sk fired h))
      ∙ same (lookup sk fired)
    where
      same :
          (o : Option ℕ)
          → is_recent cfg fl itoa later (first_of (kept now o) none) ≡ is_recent cfg fl itoa later o
      same none = refl
      same (some at) = ground (arith, l)
