-- ===== src/Alerts.antt =====
-- anomalyd/internal/server/eval.go, `sendAlerts`: what is posted to the Alertmanagers, and which
-- resolved findings are sent again. The labels, the texts and the JSON of a post are left out, and
-- the answers of the Alertmanagers are a parameter. The posts, which run at once, end before the
-- findings are marked; only `Evaluate` changes `resolved`, so it is the same then as when the
-- alerts were made.
pub mod Outbox
use self_hosted_anomaly_dete.Common.{
  ℕ, ◌+◌, ◌*◌, max, Bool, true, false, ◌||◌, Option, none, some, List, [], ◌∷◌, ◌++◌, map,
  if◌then◌else◌, length,
}
use self_hosted_anomaly_dete.Floats.{Floats}
use self_hosted_anomaly_dete.Store.{Key}
use self_hosted_anomaly_dete.Findings.{Finding, Board}

-- `amAlert`, with the finding for its labels and texts.
pub record Alert (fl : Floats) : Type 0 where
  pub finding : Finding fl
  pub ends_at : Option ℕ

-- `alertsSent` and `alertErrors`
pub record Sent : Type 0 where
  pub alerts_sent : ℕ
  pub alert_errors : ℕ

-- `hold`, in seconds
abbrev pub hold_for : ℕ → ℕ
hold_for eval_interval = max (4 * eval_interval) 120

module _ (fl : Floats) where
  -- `toAM`
  abbrev pub to_am : Option ℕ → Finding fl → Alert fl
  to_am ends f = record { finding = f; ends_at = ends }

  unfoldable pub firing_alerts : ℕ → List (Key × Finding fl) → List (Alert fl)
  firing_alerts until [] = []
  firing_alerts until ((k, f) ∷ fs) = to_am (some until) f ∷ firing_alerts until fs

  unfoldable pub resolving_alerts : List (Finding fl) → List (Alert fl)
  resolving_alerts [] = []
  resolving_alerts (f ∷ fs) =
      let rest = resolving_alerts fs in if f.resolve_sent then rest else to_am f.ends_at f ∷ rest

  -- The loop that ends `sendAlerts`: on the findings that were being resolved.
  unfoldable pub mark_sent : List (Finding fl) → List (Finding fl)
  mark_sent [] = []
  mark_sent (f ∷ fs) =
      (if f.resolve_sent then f else record f { resolve_sent = true }) ∷ mark_sent fs

  abbrev pub is_delivered : List Bool → Bool
  is_delivered [] = false
  is_delivered (ok ∷ oks) = ok || is_delivered oks

  -- The counters after the posts of `n` alerts.
  abbrev pub count_posts : ℕ → List Bool → Sent → Sent
  count_posts n [] sent = sent
  count_posts n (ok ∷ oks) sent = count_posts n oks (
      if ok
      then record sent { alerts_sent = sent.alerts_sent + n }
      else record sent { alert_errors = sent.alert_errors + 1 })

  -- The posts of a list of alerts, which is one to each Alertmanager unless it is empty.
  unfoldable pub post_all : List Bool → List (Alert fl) → Board fl × Sent → Board fl × Sent
  post_all oks [] (board, sent) = (board, sent)
  post_all oks (a ∷ alerts) (board, sent) = (
    if is_delivered oks then record board { resolved = mark_sent board.resolved } else board,
    count_posts (length (a ∷ alerts)) oks sent,
  )

  abbrev pub alerts_of : ℕ → ℕ → Board fl → List (Alert fl)
  alerts_of eval_interval now board =
      firing_alerts (now + hold_for eval_interval) board.active ++ resolving_alerts board.resolved

  -- `sendAlerts`: what is posted, to every Alertmanager, and the state after it. There is one
  -- answer for each Alertmanager: did it accept the post?
  unfoldable pub send_alerts :
      ℕ → ℕ → List Bool → Board fl × Sent → List (Alert fl) × Board fl × Sent
  unfolding post_all
  send_alerts eval_interval now [] (board, sent) = ([], board, sent)
  send_alerts eval_interval now (ok ∷ oks) st =
      let alerts = alerts_of eval_interval now st.0 in
      let (board, sent) = post_all (ok ∷ oks) alerts st in (alerts, board, sent)
