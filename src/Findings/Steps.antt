-- ===== src/Findings/Steps.antt =====
-- eval.go: one step of `apply` on a board, by the key that it writes.
use self_hosted_anomaly_dete.Common.{
  ℕ, ◌≤◌, ◌≡◌, refl, ap, Bool, true, false, Option, none, some, List, ◌∷◌, ltb, if◌then◌else◌,
  length, length-take, take, arith, if_cases,
}
use self_hosted_anomaly_dete.Common.Keys.{
  nat_eq, list_eq, list_beq_iff, lookup, insert, lookup-insert, lookup-delete, IsMap, insert-IsMap,
  delete-IsMap,
}
use self_hosted_anomaly_dete.Floats.{Floats}
use self_hosted_anomaly_dete.Store.{Key}
use self_hosted_anomaly_dete.Eval.{Subject, series, absence}
use self_hosted_anomaly_dete.Eval.Protocol.{Open}
use self_hosted_anomaly_dete.Findings.{
  Finding, Board, max_resolved, finding_key, resolve_locked, resolved,
}

abbrev pub is_some : {A : Type 0} → Option A → Bool
is_some none = false
is_some (some a) = true

abbrev pub is_open : Open → Subject → Bool
is_open o series = o.anomaly
is_open o absence = o.missing

-- The findings stand under their own keys, once each, and no more than the newest resolved ones are
-- kept.
pub record IsSound {fl : Floats} (board : Board fl) : Type 0 where
  pub distinct : IsMap board.active
  pub own : (k : Key) (f : Finding fl) → lookup k board.active ≡ some f → f.key ≡ k
  pub capped : length board.resolved ≤ max_resolved

-- The two findings of the series `key` fire as `o` says.
abbrev pub Shows : {fl : Floats} → Key → Board fl → Open → Type 0
Shows key board o = (s : Subject) → is_some (lookup (finding_key key s) board.active) ≡ is_open o s

-- The board after a step on the series `key`.
pub record Steps {fl : Floats} (key : Key) (board board' : Board fl) (o : Open) : Type 0 where
  pub sound : IsSound board'
  pub shows : Shows key board' o
  pub others :
      (k : Key)
      → ((s : Subject) → ¬ (k ≡ finding_key key s))
      → lookup k board'.active ≡ lookup k board.active

keys_differ : (key : Key) (s t : Subject) → finding_key key s ≡ finding_key key t → s ≡ t
keys_differ key series series e = refl
keys_differ key series absence e = absurd (omega (arith, ap length e))
keys_differ key absence series e = absurd (omega (arith, ap length e))
keys_differ key absence absence e = refl

unfoldable pub set_open : Open → Subject → Bool → Open
set_open o series b = record o { anomaly = b }
set_open o absence b = record o { missing = b }

capped_lem :
    {A : Type 0} (xs : List A)
    → length (if ltb max_resolved (length xs) then take max_resolved xs else xs) ≤ max_resolved
capped_lem xs =
    if_cases (λ ys. length ys ≤ max_resolved) (ltb max_resolved (length xs))
      (λ e. omega (arith, length-take max_resolved xs)) (λ e. ground (arith, e))

module _ (fl : Floats) (board : Board fl) (sound : IsSound board) where
  pub insert-IsSound :
      (k : Key) (f : Finding fl)
      → f.key ≡ k
      → IsSound (record board { active = insert k f board.active })
  insert-IsSound k f own = record {
    distinct = insert-IsMap k f board.active sound.distinct;
    own = λ j g e.
        ground (arith, own, sound.own j g, e, lookup-insert k j f board.active, list_beq_iff k j);
    capped = sound.capped;
  }

  pub resolve_locked-IsSound : (now : ℕ) (f : Finding fl) → IsSound (resolve_locked fl now board f)
  unfolding resolve_locked
  resolve_locked-IsSound now f = record {
    distinct = delete-IsMap f.key board.active sound.distinct;
    own = λ k g found.
        ground (arith, sound.own k g, found, lookup-delete f.key k board.active sound.distinct);
    capped =
        capped_lem
          (record f { state = resolved; ends_at = some now; updated_at = now } ∷ board.resolved);
  }

module _ (fl : Floats) (key : Key) (board : Board fl) (sound : IsSound board) (o o' : Open)
    (shows : Shows key board o) (s : Subject) where
  pub put-Steps :
      (f : Finding fl)
      → f.key ≡ finding_key key s
      → ((t : Subject) → is_open o' t ≡ is_open (set_open o s true) t)
      → Steps key board (record board { active = insert (finding_key key s) f board.active }) o'
  unfolding set_open
  put-Steps f own opens = record {
    sound = insert-IsSound fl board sound (finding_key key s) f own;
    shows = λ t. ground (
      arith,
      opens t,
      shows t,
      keys_differ key s t,
      lookup-insert (finding_key key s) (finding_key key t) f board.active,
      list_beq_iff (finding_key key s) (finding_key key t),
    );
    others = λ k away. ground (
      arith,
      away s,
      lookup-insert (finding_key key s) k f board.active,
      list_beq_iff (finding_key key s) k,
    );
  }

  pub resolve_locked-Steps :
      (now : ℕ) (f : Finding fl)
      → lookup (finding_key key s) board.active ≡ some f
      → ((t : Subject) → is_open o' t ≡ is_open (set_open o s false) t)
      → Steps key board (resolve_locked fl now board f) o'
  unfolding resolve_locked set_open
  resolve_locked-Steps now f e opens =
      let own : f.key ≡ finding_key key s = sound.own (finding_key key s) f e in
      record {
        sound = resolve_locked-IsSound fl board sound now f;
        shows = λ t. ground (
          arith,
          opens t,
          shows t,
          own,
          keys_differ key s t,
          lookup-delete f.key (finding_key key t) board.active sound.distinct,
          list_beq_iff f.key (finding_key key t),
        );
        others = λ k away. ground (
          arith,
          away s,
          own,
          lookup-delete f.key k board.active sound.distinct,
          list_beq_iff f.key k,
        );
      }

-- What `react` says of each event.
