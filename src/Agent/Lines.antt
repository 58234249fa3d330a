-- ===== src/Agent/Lines.antt =====
-- agent.go, `line`: one line of a file, its envelope, its fields and its template.
pub mod Streams
use self_hosted_anomaly_dete.Common.{
  ℕ, suc, ◌+◌, Bool, true, false, Option, none, some, List, [], ◌∷◌, ◌++◌, ltb, ◌==◌, if◌then◌else◌,
  length,
}
use self_hosted_anomaly_dete.Common.Keys.{nat_eq, list_eq, lookup, insert}
use self_hosted_anomaly_dete.Common.Text.{Text, bytes, trim_right}
use self_hosted_anomaly_dete.Floats.{Floats}
use self_hosted_anomaly_dete.Drain.{Change, unchanged, Miner, Cluster}
use self_hosted_anomaly_dete.Drain.Mining.{new_miner, add}
use self_hosted_anomaly_dete.Drain.Mask.{tokenize}
use self_hosted_anomaly_dete.Drain.Pool.{Pool, get}
use self_hosted_anomaly_dete.Logparse.{extract}
use self_hosted_anomaly_dete.Logparse.Levels.{level_of, detect_level, name_of}
use self_hosted_anomaly_dete.Logparse.Container.{Envelope, Format, unwrap}
use self_hosted_anomaly_dete.Agent.{CountKey, key_eq, LocalCount}
use self_hosted_anomaly_dete.Agent.Tail.{runaway}

-- `cpart`: the partial lines of stdout and of stderr.
pub record Parts : Type 0 where
  pub out : Text
  pub err : Text

abbrev pub part_of : Bool → Parts → Text
part_of true p = p.err
part_of false p = p.out

abbrev pub set_part : Bool → Text → Parts → Parts
set_part true t p = record p { err = t }
set_part false t p = record p { out = t }

-- A partial line: it is kept until it is a runaway line.
abbrev pub keep_part : Bool → Text → Parts → Parts × Option Text
keep_part stderr t p =
    if ltb (length t) runaway then (set_part stderr t p, none) else (set_part stderr [] p, some t)

-- The end of a line.
abbrev pub end_part : Bool → Text → Text → Parts → Parts × Option Text
end_part stderr [] text p = (p, some text)
end_part stderr (c ∷ part) text p = (set_part stderr [] p, some ((c ∷ part) ++ text))

-- The text of an envelope with the partial lines before it, if it ends a line.
unfoldable pub join : Parts → Envelope → Parts × Option Text
join p e =
    let part = part_of e.stderr p in
    if e.partial then keep_part e.stderr (part ++ e.text) p else end_part e.stderr part e.text p

abbrev pub is_return : ℕ → Bool
is_return c = c == 13

abbrev pub nonempty : Text → Option Text
nonempty [] = none
nonempty (c ∷ s) = some (c ∷ s)

-- The text that a line has for the miner, `none` where it has none.
abbrev pub trimmed : Option Text → Option Text
trimmed none = none
trimmed (some t) = nonempty (trim_right is_return t)

abbrev pub unwrapped : Parts → Text → Option Envelope → Parts × Option Text
unwrapped p s none = (p, some s)
unwrapped p s (some e) = let (p', t) = join p e in (p', trimmed t)

abbrev pub or_else : Text → Text → Text
or_else [] other = other
or_else (c ∷ s) other = c ∷ s

-- The message, the service and the level of the fields; the level is detected where there is none.
abbrev pub with_level : Text → Text → Text → Text × Text × Text
with_level msg svc level =
    (msg, or_else svc (bytes "unknown"), or_else level (bytes (name_of (detect_level msg))))

abbrev pub of_values : Text → Text → Option (List Text) → Text × Text × Text
of_values s svc (some (msg ∷ service ∷ level ∷ [])) =
    with_level msg (or_else service svc) (bytes (name_of (level_of level)))
of_values s svc _ = with_level s svc []

module _ (unquote : Text → Option Text) where
  abbrev pub from_line : Option Format → Parts → Option Text → Parts × Option Text
  from_line container p none = (p, none)
  from_line none p (some s) = (p, some s)
  from_line (some format) p (some s) = unwrapped p s (unwrap unquote format s)

  unfoldable pub line_text : Option Format → Parts → Text → Parts × Option Text
  line_text container p b = from_line container p (trimmed (some b))

  -- `paths` are those of the message, the service and the level.
  unfoldable pub fields_of : Bool → List Text → Text → Text → Text × Text × Text
  fields_of json paths svc s =
      if json then of_values s svc (extract unquote paths s) else with_level s svc []

abbrev pub join_tokens : List Text → Text
join_tokens [] = []
join_tokens (t ∷ []) = t
join_tokens (t ∷ u ∷ ts) = t ++ (32 ∷ join_tokens (u ∷ ts))

-- `c.Template()` of the cluster with an id.
abbrev pub template_at : List (ℕ × Cluster) → ℕ → Text
template_at clusters id = elim (lookup id clusters) [ none ↦ [] | some c ↦ join_tokens c.tokens ]

-- The text is taken when there is none yet, and when the line changed the template.
abbrev pub text_kept : Change → Text → Text → Text
text_kept unchanged (c ∷ t) text = c ∷ t
text_kept _ _ text = text

abbrev pub counted : Text → Change → LocalCount → LocalCount
counted text ch c = record { lines = suc c.lines; template = text_kept ch c.template text }

abbrev pub local_or_new : Option LocalCount → LocalCount
local_or_new none = record { lines = 0; template = [] }
local_or_new (some c) = c

-- One line more for a key.
unfoldable pub count_in :
    CountKey → Text → Change → List (CountKey × LocalCount) → List (CountKey × LocalCount)
count_in k text ch local = insert k (counted text ch (local_or_new (lookup k local))) local

module _ (fl : Floats) where
  abbrev pub miner_at : Pool fl → Text → Miner fl
  miner_at p key = elim (lookup key p.miners) [ none ↦ new_miner fl p.cfg | some m ↦ m ]

  -- The pool and the counts of this reading, behind a message.
  unfoldable pub mine_message :
      Text × Text × Text
      → Pool fl × List (CountKey × LocalCount)
      → Pool fl × List (CountKey × LocalCount)
  mine_message (msg, svc, level) (pool, local) =
      let (pool', key) = get fl pool svc in
      let (m, id, ch) = add fl (miner_at pool' key) (tokenize msg) 1 in
      let k : CountKey = ((key, id), level) in
      (
        record pool' { miners = insert key m pool'.miners },
        count_in k (template_at m.clusters id) ch local,
      )
