-- ===== src/Alerts/Outbox.antt =====
-- eval.go, `sendAlerts`: the resolved findings that are sent again, over rounds.
use self_hosted_anomaly_dete.Common.{
  ℕ, zero, suc, ◌+◌, ◌≤◌, ltb, length, take, some, All, ◌≡◌, refl, sym, ap, ap₂, if_true, if_both,
  ◌∙◌, Bool, true, false, List, [], ◌∷◌, ◌++◌, arith, if◌then◌else◌, if_cases,
}
use mathlib.Core.Path.{subst}
use self_hosted_anomaly_dete.Floats.{Floats}
use self_hosted_anomaly_dete.Store.{Key}
use self_hosted_anomaly_dete.Findings.{Finding, Board, resolved, max_resolved, resolve_locked}
use self_hosted_anomaly_dete.Alerts.{
  Alert, Sent, hold_for, to_am, firing_alerts, resolving_alerts, mark_sent, is_delivered, post_all,
  send_alerts,
}

take_short : {A : Type 0} (n : ℕ) (xs : List A) → length xs ≤ n → take n xs ≡ xs
take_short zero [] h = refl
take_short zero (x ∷ xs) h = absurd (omega arith)
take_short (suc n) [] h = refl
take_short (suc n) (x ∷ xs) h = ap (◌∷◌ x) (take_short n xs (omega arith))

module _ (fl : Floats) (eval_interval : ℕ) where
  -- A call of `sendAlerts`: its time, the findings that fire then, those that `resolveLocked` has
  -- been given since the last one, the first of them first, and the answers of the Alertmanagers.
  pub record Turn : Type 0 where
    pub now : ℕ
    pub active : List (Key × Finding fl)
    pub ended : List (ℕ × Finding fl)
    pub first_ok : Bool
    pub other_oks : List Bool

  abbrev pub oks : Turn → List Bool
  oks t = t.first_ok ∷ t.other_oks

  -- `resolveLocked`, on each finding at its time.
  abbrev pub resolve_all : List (ℕ × Finding fl) → Board fl → Board fl
  resolve_all [] board = board
  resolve_all ((at, f) ∷ fs) board = resolve_all fs (resolve_locked fl at board f)

  abbrev pub board_at : Turn → Board fl → Board fl
  board_at t board = record (resolve_all t.ended board) { active = t.active }

  -- What the calls post.
  unfoldable pub posts : List Turn → Board fl → Sent → List (List (Alert fl))
  posts [] board sent = []
  posts (t ∷ ts) board sent =
      let (alerts, board', sent') =
        send_alerts fl eval_interval t.now (oks t) (board_at t board, sent) in
      alerts ∷ posts ts board' sent'

  -- The alert of a finding that ends.
  abbrev pub end_alert : ℕ → Finding fl → Alert fl
  end_alert at f =
      to_am fl (some at) (record f { state = resolved; ends_at = some at; updated_at = at })

  -- An outbox: the alert of a finding that ends is put in front, and the oldest leaves when there
  -- are more than 500; all of it is sent each time, and it is emptied when one Alertmanager has
  -- accepted it.
  abbrev pub put_all : List (ℕ × Finding fl) → List (Alert fl) → List (Alert fl)
  put_all [] box = box
  put_all ((at, f) ∷ fs) box = put_all fs (take max_resolved (end_alert at f ∷ box))

  unfoldable pub outbox_posts : List Turn → List (Alert fl) → List (List (Alert fl))
  outbox_posts [] box = []
  outbox_posts (t ∷ ts) box =
      let box' = put_all t.ended box in
      (firing_alerts fl (t.now + hold_for eval_interval) t.active ++ box')
      ∷ outbox_posts ts (if is_delivered fl (oks t) then [] else box')

  -- Behind a finding that was sent, all were.
  unfoldable pub IsOrdered : List (Finding fl) → Type 0
  IsOrdered [] = Unit
  IsOrdered (f ∷ fs) = (f.resolve_sent ≡ true → resolving_alerts fl fs ≡ []) × IsOrdered fs

  abbrev pub IsFresh : Turn → Type 0
  IsFresh t = All (λ e. e.1.resolve_sent ≡ false) t.ended

  take_none :
      (n : ℕ) (fs : List (Finding fl))
      → resolving_alerts fl fs ≡ []
      → resolving_alerts fl (take n fs) ≡ []
  unfolding resolving_alerts
  take_none zero fs h = refl
  take_none (suc n) [] h = refl
  take_none (suc n) (f ∷ fs) h = ground (arith, h, take_none n fs)

  resolving_alerts-take :
      (n : ℕ) (fs : List (Finding fl))
      → IsOrdered fs
      → resolving_alerts fl (take n fs) ≡ take n (resolving_alerts fl fs)
  unfolding resolving_alerts IsOrdered
  resolving_alerts-take zero fs h = refl
  resolving_alerts-take (suc n) [] h = refl
  resolving_alerts-take (suc n) (f ∷ fs) h =
      go f.resolve_sent h.0 (take_none n fs) (resolving_alerts-take n fs h.1)
    where
      rest : List (Alert fl)
      rest = resolving_alerts fl fs

      go :
          (b : Bool)
          → (b ≡ true → rest ≡ [])
          → (rest ≡ [] → resolving_alerts fl (take n fs) ≡ [])
          → resolving_alerts fl (take n fs) ≡ take n rest
          → (if b
              then resolving_alerts fl (take n fs)
              else to_am fl f.ends_at f ∷ resolving_alerts fl (take n fs))
            ≡ take (suc n) (if b then rest else to_am fl f.ends_at f ∷ rest)
      go true none_left empty e = empty (none_left refl) ∙ sym (ap (take (suc n)) (none_left refl))
      go false none_left empty e = ap (◌∷◌ (to_am fl f.ends_at f)) e

  take-IsOrdered : (n : ℕ) (fs : List (Finding fl)) → IsOrdered fs → IsOrdered (take n fs)
  unfolding IsOrdered
  take-IsOrdered zero fs h = tt
  take-IsOrdered (suc n) [] h = tt
  take-IsOrdered (suc n) (f ∷ fs) h = (λ e. take_none n fs (h.0 e), take-IsOrdered n fs h.1)

  resolved_take :
      (at : ℕ) (board : Board fl) (f : Finding fl)
      → (resolve_locked fl at board f).resolved
        ≡ take max_resolved
            (record f { state = resolved; ends_at = some at; updated_at = at } ∷ board.resolved)
  unfolding resolve_locked
  resolved_take at board f =
      let all : List (Finding fl) =
        record f { state = resolved; ends_at = some at; updated_at = at } ∷ board.resolved in
      if_cases (λ xs. xs ≡ take max_resolved all) (ltb max_resolved (length all)) (λ e. refl)
        (λ e. sym (take_short max_resolved all (ground (arith, e))))

  -- What `resolveLocked` leaves to send is what the outbox holds.
  resolve_all_lem :
      (es : List (ℕ × Finding fl)) (board : Board fl)
      → All (λ e. e.1.resolve_sent ≡ false) es
      → IsOrdered board.resolved
      → IsOrdered (resolve_all es board).resolved
        × (resolving_alerts fl (resolve_all es board).resolved
            ≡ put_all es (resolving_alerts fl board.resolved))
  resolve_all_lem [] board h o = (o, refl)
  resolve_all_lem ((at, f) ∷ es) board h o =
      let f' : Finding fl = record f { state = resolved; ends_at = some at; updated_at = at } in
      let all : List (Finding fl) = f' ∷ board.resolved in
      let ordered : IsOrdered all = unfold IsOrdered in (λ e. absurd (ground (arith, h.0, e)), o) in
      let cut = resolved_take at board f in
      let kept : IsOrdered (resolve_locked fl at board f).resolved =
        subst IsOrdered (sym cut) (take-IsOrdered max_resolved all ordered) in
      let put : resolving_alerts fl all ≡ end_alert at f ∷ resolving_alerts fl board.resolved =
        unfold resolving_alerts in ground (arith, h.0) in
      let more = resolve_all_lem es (resolve_locked fl at board f) h.1 kept in
      (
        more.0,
        more.1
            ∙ ap (put_all es) (
                ap (resolving_alerts fl) cut
                ∙ resolving_alerts-take max_resolved all ordered
                ∙ ap (take max_resolved) put),
      )

  resolving_alerts-mark_sent : (xs : List (Finding fl)) → resolving_alerts fl (mark_sent fl xs) ≡ []
  unfolding resolving_alerts mark_sent
  resolving_alerts-mark_sent [] = refl
  resolving_alerts-mark_sent (x ∷ xs) =
      let ih = resolving_alerts-mark_sent xs in
      if_cases
        (λ (g : Finding fl).
          (if g.resolve_sent
            then resolving_alerts fl (mark_sent fl xs)
            else to_am fl g.ends_at g ∷ resolving_alerts fl (mark_sent fl xs))
          ≡ [])
        x.resolve_sent (λ y. if_true x.resolve_sent _ _ y ∙ ih) (λ n. ih)

  append_nil : (xs ys : List (Alert fl)) → [] ≡ xs ++ ys → ys ≡ []
  append_nil [] ys e = sym e
  append_nil (x ∷ xs) ys e = absurd (ground (arith, e))

  resolving_alerts-post_all :
      (oks : List Bool) (alerts before : List (Alert fl)) (board : Board fl) (sent : Sent)
      → alerts ≡ before ++ resolving_alerts fl board.resolved
      → resolving_alerts fl (post_all fl oks alerts (board, sent)).0.resolved
        ≡ (if is_delivered fl oks then [] else resolving_alerts fl board.resolved)
  unfolding post_all
  resolving_alerts-post_all oks [] before board sent e =
      if_both (λ z. resolving_alerts fl board.resolved ≡ z) (is_delivered fl oks)
        (append_nil before (resolving_alerts fl board.resolved) e) refl
  resolving_alerts-post_all oks (a ∷ alerts) before board sent e = go (is_delivered fl oks)
    where
      go :
          (d : Bool)
          → resolving_alerts fl
              (if d
                then record board { resolved = mark_sent fl board.resolved }
                else board).resolved
            ≡ (if d then [] else resolving_alerts fl board.resolved)
      go true = resolving_alerts-mark_sent board.resolved
      go false = refl

  mark_sent-IsOrdered : (fs : List (Finding fl)) → IsOrdered (mark_sent fl fs)
  unfolding mark_sent IsOrdered
  mark_sent-IsOrdered [] = tt
  mark_sent-IsOrdered (f ∷ fs) = (λ e. resolving_alerts-mark_sent fs, mark_sent-IsOrdered fs)

  post_all-IsOrdered :
      (oks : List Bool) (alerts : List (Alert fl)) (board : Board fl) (sent : Sent)
      → IsOrdered board.resolved
      → IsOrdered (post_all fl oks alerts (board, sent)).0.resolved
  unfolding post_all
  post_all-IsOrdered oks [] board sent o = o
  post_all-IsOrdered oks (a ∷ alerts) board sent o =
      if_both {A = Board fl} (λ b. IsOrdered b.resolved) (is_delivered fl oks)
        (mark_sent-IsOrdered board.resolved) o

  -- Over any calls of `sendAlerts` with an Alertmanager to send to, and any findings that
  -- `resolveLocked` is given between them, none of which was sent: what is posted is what an outbox
  -- for 500 alerts posts. That is every finding that fires, and the alert of each of the 500
  -- newest resolved findings in every post up to and with the first one that an Alertmanager
  -- accepts, and in none after it. At first the findings that were sent stand
  -- behind those that were not.
  pub posts-outbox_posts :
      (ts : List Turn) (board : Board fl) (sent : Sent)
      → All IsFresh ts
      → IsOrdered board.resolved
      → posts ts board sent ≡ outbox_posts ts (resolving_alerts fl board.resolved)
  unfolding posts outbox_posts send_alerts
  posts-outbox_posts [] board sent h o = refl
  posts-outbox_posts (t ∷ ts) board sent h o =
      let until = t.now + hold_for eval_interval in
      let fires = firing_alerts fl until t.active in
      let (ordered, held) = resolve_all_lem t.ended board h.0 o in
      let board' = board_at t board in
      let alerts = fires ++ resolving_alerts fl board'.resolved in
      let st = post_all fl (oks t) alerts (board', sent) in
      ap₂ (λ a others. a ∷ others) (ap (λ r. fires ++ r) held)
        (posts-outbox_posts ts st.0 st.1 h.1 (post_all-IsOrdered (oks t) alerts board' sent ordered)
          ∙ ap (outbox_posts ts) (
              resolving_alerts-post_all (oks t) alerts fires board' sent refl
              ∙ ap (λ r. if is_delivered fl (oks t) then [] else r) held))
