-- ===== src/Novelty/Moves.antt =====
-- eval.go, `evalSignaturesLocked`: what a round does to one signature, to its last time and to its
-- finding.
use self_hosted_anomaly_dete.Common.{
  ℕ, ◌≡◌, refl, ap, ◌∙◌, Bool, true, false, ◌||◌, Option, some, List, [], ◌∷◌, ◌++◌, ◌==◌, ap₂,
  drop, All, arith, if◌then◌else◌, if_cases, ◌⊎◌, inl, inr,
}
use mathlib.Core.Path.{subst}
use mathlib.Core.List.{foldl}
use self_hosted_anomaly_dete.Common.Keys.{
  nat_eq, list_eq, pair_eq, pair_beq, pair_beq_iff, list_beq, list_beq_iff, lookup, insert, delete,
  lookup-insert, has_key,
}
use self_hosted_anomaly_dete.Common.Text.{Text}
use self_hosted_anomaly_dete.Store.{Key}
use self_hosted_anomaly_dete.Eval.{log_signature}
use self_hosted_anomaly_dete.Floats.{Floats}
use self_hosted_anomaly_dete.Findings.{Finding, Board, resolve_locked}
use self_hosted_anomaly_dete.Novelty.{
  Limits, SigKey, SigCand, Cands, Alarms, is_recent, sig_key, fire_sig, count_finding, sweep,
  is_over,
}

module _ {V : Type 0} where
  has_key-insert :
      (k j : Key) (v : V) (m : List (Key × V))
      → has_key j (insert k v m) ≡ (if list_beq k j then true else has_key j m)
  has_key-insert k j v [] = refl
  has_key-insert k j v ((i, w) ∷ m) =
      ground (arith, list_beq_iff k j, list_beq_iff i k, list_beq_iff i j, has_key-insert k j v m)

  has_key-delete :
      (k j : Key) (m : List (Key × V)) → has_key j (delete k m) ≡ true → has_key j m ≡ true
  has_key-delete k j [] h = h
  has_key-delete k j ((i, w) ∷ m) h = ground (arith, h, has_key-delete k j m)

module _ (cfg : Limits) (fl : Floats) (itoa : ℕ → Text) where
  abbrev pub recent : ℕ → Option ℕ → Bool
  recent = is_recent cfg fl itoa

  abbrev pub has_finding : SigKey → Board fl → Bool
  has_finding sk board = has_key (sig_key cfg fl itoa sk) board.active

  -- The name of a service has no byte 255, which ends it in the key of a finding.
  abbrev pub IsName : SigKey → Type 0
  IsName sk = All (λ c. (c == 255) ≡ false) sk.0

  split_name :
      (s s' n n' : Text)
      → All (λ c. (c == 255) ≡ false) s
      → All (λ c. (c == 255) ≡ false) s'
      → s ++ (255 ∷ n) ≡ s' ++ (255 ∷ n')
      → (s ≡ s') × (n ≡ n')
  split_name [] [] n n' h h' e = (refl, ground (arith, e))
  split_name [] (d ∷ s') n n' h h' e = absurd (ground (arith, e, h'.0))
  split_name (c ∷ s) [] n n' h h' e = absurd (ground (arith, e, h.0))
  split_name (c ∷ s) (d ∷ s') n n' h h' e =
      let same : c ≡ d = ground (arith, e) in
      let rest = split_name s s' n n' h.1 h'.1 (ground (arith, e)) in
      (ap₂ (◌∷◌) same rest.0, rest.1)

  -- Two signatures have two findings.
  sig_key_differ :
      (j sk : SigKey)
      → IsName j
      → IsName sk
      → sig_key cfg fl itoa j ≡ sig_key cfg fl itoa sk
      → j ≡ sk
  sig_key_differ (s, n) (s', n') h h' e =
      let both = split_name s s' n n' h h' (ap (drop 4) e) in ap₂ (λ a b. (a, b)) both.0 both.1

  -- The last time of a signature and its finding, at `now`.
  abbrev pub State : Type 0
  State = Option ℕ × Bool

  abbrev pub state_of : SigKey → Alarms cfg fl itoa → State
  state_of sk a = (lookup sk a.1, has_finding sk a.0)

  abbrev pub Moves : ℕ → State → State → Type 0
  Moves now o o' = (o' ≡ o) ⊎ ((o'.0 ≡ some now) × (recent now o.0 ≡ false))

  recent_self : (now : ℕ) → recent now (some now) ≡ true
  recent_self now = ground arith

  Moves-trans : (now : ℕ) (o p q : State) → Moves now o p → Moves now p q → Moves now o q
  Moves-trans now o p q (inl e) k = subst (λ r. Moves now r q) e k
  Moves-trans now o p q (inr h) (inl e) = inr (ap (λ r. r.0) e ∙ h.0, h.1)
  Moves-trans now o p q (inr h) (inr k) =
      absurd (ground (arith, ap (recent now) h.0, recent_self now, k.1))

  -- A finding that is put under another key.
  has_finding-insert :
      (sk j : SigKey) (f : Finding fl) (board : Board fl)
      → (sig_key cfg fl itoa j ≡ sig_key cfg fl itoa sk → j ≡ sk)
      → pair_beq j sk ≡ false
      → has_key (sig_key cfg fl itoa sk) (insert (sig_key cfg fl itoa j) f board.active)
        ≡ has_finding sk board
  has_finding-insert sk j f board apart n = ground (
    arith,
    has_key-insert (sig_key cfg fl itoa j) (sig_key cfg fl itoa sk) f board.active,
    list_beq_iff (sig_key cfg fl itoa j) (sig_key cfg fl itoa sk),
    pair_beq_iff j sk,
    apart,
    n,
  )

  fire_sig-Moves :
      (sk : SigKey) (now : ℕ) (a : Alarms cfg fl itoa) (c : SigKey × SigCand)
      → IsName sk
      → IsName c.0
      → Moves now (state_of sk a) (state_of sk (fire_sig cfg fl itoa now a c))
  unfolding fire_sig
  fire_sig-Moves sk now (board, fired) (j, c) h hj =
      if_cases (λ (a : Alarms cfg fl itoa). Moves now (state_of sk (board, fired)) (state_of sk a))
        (has_key (sig_key cfg fl itoa j) board.active || recent now (lookup j fired))
        (λ y. inl refl) (λ n. fired_Moves (ground (arith, n)) (pair_beq j sk) refl)
    where
      fired_Moves :
          recent now (lookup j fired) ≡ false
          → (b : Bool) → pair_beq j sk ≡ b
          → Moves now (state_of sk (board, fired)) (
            lookup sk (insert j now fired),
            has_key (sig_key cfg fl itoa sk) (
                insert
                  (sig_key cfg fl itoa j)
                  (count_finding cfg fl itoa log_signature (sig_key cfg fl itoa j) c.lines now)
                  board.active),
          )
      fired_Moves late true e = inr (
        lookup-insert j sk now fired ∙ rw e refl,
        subst (λ k. recent now (lookup k fired) ≡ false) ((pair_beq_iff j sk).0 e) late,
      )
      fired_Moves late false e = inl (
          ap₂ (λ a b. (a, b)) (lookup-insert j sk now fired ∙ rw e refl)
            (has_finding-insert sk j _ board (sig_key_differ j sk hj h) e))

  pub fires-Moves :
      (sk : SigKey) (now : ℕ) (cs : Cands) (a : Alarms cfg fl itoa)
      → IsName sk
      → All (λ c. IsName c.0) cs
      → Moves now (state_of sk a) (state_of sk (foldl (fire_sig cfg fl itoa now) a cs))
  fires-Moves sk now [] a h hs = inl refl
  fires-Moves sk now (c ∷ cs) a h hs =
      Moves-trans now _ _ _ (fire_sig-Moves sk now a c h hs.0)
        (fires-Moves sk now cs (fire_sig cfg fl itoa now a c) h hs.1)

  resolved_kept :
      (k : Key) (now : ℕ) (board : Board fl) (f : Finding fl)
      → has_key k (resolve_locked fl now board f).active ≡ true
      → has_key k board.active ≡ true
  unfolding resolve_locked
  resolved_kept k now board f e = has_key-delete f.key k board.active e

  -- What the second loop leaves was there before it.
  pub sweep_kept :
      (k : Key) (now : ℕ) (fs : List (Key × Finding fl)) (board : Board fl)
      → has_key k (sweep cfg fl itoa now fs board).active ≡ true
      → has_key k board.active ≡ true
  unfolding sweep
  sweep_kept k now [] board e = e
  sweep_kept k now ((j, f) ∷ fs) board e =
      let rest =
        sweep_kept k now fs
          (if is_over cfg fl itoa now f then resolve_locked fl now board f else board) e in
      if_cases (λ (b : Board fl). has_key k b.active ≡ true → has_key k board.active ≡ true)
        (is_over cfg fl itoa now f) (λ y. resolved_kept k now board f) (λ n e. e) rest
