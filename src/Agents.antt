-- ===== src/Agents.antt =====
-- anomalyd/internal/server/agents.go, `agentRegistry`: what the server knows of the agents that
-- push. Times are seconds since the zero time (the clock does not run backwards past it: a
-- difference is 0 then, and every test on one reads the same), names are their bytes. The parameter
-- `clean` of the operations is `clean_service`, over Go's two functions on text.
pub mod Bounds
use self_hosted_anomaly_dete.Common.{
  ℕ, ◌+◌, ◌%◌, ◌^◌, ◌-◌, Bool, true, false, Option, none, some, List, [], ◌∷◌, map, ltb, leb,
  if◌then◌else◌, length, take, ◌==◌,
}
use self_hosted_anomaly_dete.Common.Int.{ℤ, pos}
use self_hosted_anomaly_dete.Common.Keys.{nat_eq, list_eq, lookup, insert, has_key}
use mathlib.Core.List.{foldl}

abbrev pub Name : Type 0
Name = List ℕ

abbrev pub max_agents : ℕ
max_agents = 10000

abbrev pub max_agent_services : ℕ
max_agent_services = 256

-- 24 hours
abbrev pub agent_ttl : ℕ
agent_ttl = 86400

abbrev pub minute : ℕ
minute = 60

-- `agentInfo`
pub record Agent : Type 0 where
  pub last : ℕ
  pub seen : ℕ
  pub step : ℤ
  pub pushes : ℕ
  pub rejected : ℕ
  pub lines : ℕ
  pub services : List (Name × ℕ)

pub record Registry : Type 0 where
  pub agents : List (Name × Agent)
  pub swept : ℕ

-- A push that `handlePush` accepts or refuses.
pub data Request : Type 0 where
  accepted : Name → ℤ → ℕ → List Name → ℕ → Request
  refused : Name → ℤ → ℕ → Request

abbrev pub new_agent : Agent
new_agent = record {
  last = 0;
  seen = 0;
  step = pos 0;
  pushes = 0;
  rejected = 0;
  lines = 0;
  services = [];
}

-- The agents that the sweep at `now` leaves.
unfoldable pub alive : ℕ → List (Name × Agent) → List (Name × Agent)
alive now [] = []
alive now ((name, a) ∷ m) =
    let rest = alive now m in if ltb agent_ttl (now - a.seen) then rest else (name, a) ∷ rest

-- `cleanService`, with `strings.ToValidUTF8` and `strings.TrimSpace` as parameters.
unfoldable pub clean_service : (Name → Name) → (Name → Name) → Name → Name
clean_service to_valid trim svc =
    let clean = trim (to_valid svc) in
    if length clean == 0
    then b'u' ∷ b'n' ∷ b'k' ∷ b'n' ∷ b'o' ∷ b'w' ∷ b'n' ∷ []
    else if ltb 128 (length clean)
    then to_valid (take 128 clean)
    else clean

-- `expireLocked`
unfoldable pub expire : ℕ → Registry → Registry
expire now r =
    if ltb (now - r.swept) minute then r else record { agents = alive now r.agents; swept = now }

-- The services that were seen within the hour before `t`.
unfoldable pub recent : ℕ → List (Name × ℕ) → List (Name × ℕ)
recent t [] = []
recent t ((name, seen) ∷ m) =
    let rest = recent t m in if ltb 3600 (t - seen) then rest else (name, seen) ∷ rest

-- One round of the second loop of `record`.
unfoldable pub note_service : ℕ → List (Name × ℕ) → Name → List (Name × ℕ)
note_service t m svc =
    if has_key svc m
    then insert svc t m
    else if ltb (length m) max_agent_services
    then insert svc t m
    else m

unfoldable pub note_services : ℕ → List (Name × ℕ) → List Name → List (Name × ℕ)
note_services t m svcs =
    let room = if leb max_agent_services (length m) then recent t m else m in
    foldl (note_service t) room svcs

module _ (clean : Name → Name) (overflow : Name) where
  -- `getLocked` from the lookup under the name that was chosen.
  unfoldable pub touch_or_new : ℕ → Registry → Name → Option Agent → Name × Agent × Registry
  touch_or_new now r name (some a) =
      let a' : Agent = record a { seen = now } in
      (name, a', record r { agents = insert name a' r.agents })
  touch_or_new now r name none =
      let a' : Agent = record new_agent { seen = now } in
      (name, a', record r { agents = insert name a' r.agents })

  unfoldable pub get_found : ℕ → Registry → Name → Option Agent → Name × Agent × Registry
  unfolding touch_or_new
  get_found now r name (some a) = touch_or_new now r name (some a)
  get_found now r name none =
      let r' = expire now r in
      let name' = if leb max_agents (length r'.agents) then overflow else name in
      touch_or_new now r' name' (lookup name' r'.agents)

  -- `getLocked`: the name and the entry that the caller goes on to change, and the registry.
  unfoldable pub get_locked : Name → ℕ → Registry → Name × Agent × Registry
  unfolding get_found
  get_locked name now r = get_found now r (clean name) (lookup (clean name) r.agents)

  -- `record`
  unfoldable pub record_push : Name → ℤ → ℕ → List Name → ℕ → Registry → Registry
  record_push name step lines services now r =
      let (name', a, r') = get_locked name now r in
      let a' : Agent = record a {
        last = now;
        step = step;
        pushes = a.pushes + 1;
        lines = (a.lines + lines) % 2 ^ 64;
        services = note_services now a.services services;
      } in
      record r' { agents = insert name' a' r'.agents }

  -- `reject`
  unfoldable pub reject : Name → ℤ → ℕ → Registry → Registry
  reject name step now r =
      let (name', a, r') = get_locked name now r in
      let a' : Agent = record a { step = step; rejected = a.rejected + 1 } in
      record r' { agents = insert name' a' r'.agents }

  -- The registry after the pushes, the last one first.
  unfoldable pub handle_all : List Request → Registry
  handle_all [] = record { agents = []; swept = 0 }
  handle_all (accepted name step lines services now ∷ reqs) =
      record_push name step lines services now (handle_all reqs)
  handle_all (refused name step now ∷ reqs) = reject name step now (handle_all reqs)

-- `agentRow`
pub record Row : Type 0 where
  pub agent : Name
  pub last_push : ℕ
  pub step : ℤ
  pub pushes : ℕ
  pub rejected : ℕ
  pub lines : ℕ
  pub services : List Name

unfoldable pub active_services : ℕ → List (Name × ℕ) → List Name
active_services now [] = []
active_services now ((name, t) ∷ m) =
    let rest = active_services now m in if leb (now - t) 3600 then name ∷ rest else rest

-- `rows`, with Go's two sorts as parameters: the rows, and the registry after the sweep.
module _ (sort_names : List Name → List Name) (sort_rows : List Row → List Row) where
  unfoldable pub row_of : ℕ → Bool → Name × Agent → Row
  row_of now with_services (name, a) = record {
    agent = name;
    last_push = a.last;
    step = a.step;
    pushes = a.pushes;
    rejected = a.rejected;
    lines = a.lines;
    services = if with_services then sort_names (active_services now a.services) else [];
  }

  unfoldable pub rows : ℕ → Bool → Registry → List Row × Registry
  unfolding row_of
  rows now with_services r =
      let r' = expire now r in (sort_rows (map (row_of now with_services) r'.agents), r')
