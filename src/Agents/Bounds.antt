-- ===== src/Agents/Bounds.antt =====
-- agents.go: the number of agents and of their services.
use self_hosted_anomaly_dete.Common.{
  ℕ, ◌+◌, ◌-◌, ◌≤◌, ◌<◌, ◌≡◌, ◌⊎◌, inl, inr, refl, true, false, Option, none, some, List, [], ◌∷◌,
  ltb, leb, if◌then◌else◌, length, arith, All, if_cases, if_both,
}
use mathlib.Core.List.{foldl}
use self_hosted_anomaly_dete.Common.Keys.{
  nat_eq, list_eq, list_beq, list_beq_iff, lookup, insert, has_key, length-insert, lookup-insert,
  IsMap, insert-IsMap,
}
use self_hosted_anomaly_dete.Common.Int.{ℤ}
use self_hosted_anomaly_dete.Agents.{
  Name, Agent, Registry, new_agent, max_agents, max_agent_services, agent_ttl, minute, alive,
  expire, recent, note_service, note_services, touch_or_new, get_found, get_locked, record_push,
  reject, Request, accepted, refused, handle_all,
}

abbrev pub HasFew : Name × Agent → Type 0
HasFew p = length p.1.services ≤ max_agent_services

-- One more entry than `maxAgents` only if that is the shared one.
abbrev pub room : Name → List (Name × Agent) → ℕ
room overflow m = max_agents + (elim (lookup overflow m) [ none ↦ 0 | some a ↦ 1 ])

-- The bounds: `maxAgents` entries, and one that the agents beyond share; `maxAgentServices`
-- services in each; no name twice.
pub record IsBounded (overflow : Name) (m : List (Name × Agent)) : Type 0 where
  pub agents : length m ≤ room overflow m
  pub services : All HasFew m
  pub distinct : IsMap m

has_key_lem :
    {V : Type 0} (k : Name) (m : List (Name × V))
    → has_key k m ≡ (elim (lookup k m) [ none ↦ false | some v ↦ true ])
has_key_lem k [] = refl
has_key_lem k ((j, v) ∷ m) = ground (arith, has_key_lem k m)

All-insert :
    (P : Name × Agent → Type 0) (k : Name) (v : Agent) (m : List (Name × Agent))
    → P (k, v)
    → All P m
    → All P (insert k v m)
All-insert P k v [] p h = (p, tt)
All-insert P k v ((j, w) ∷ m) p h =
    if_cases (All P) (list_beq j k) (λ e. (p, h.1)) (λ e. (h.0, All-insert P k v m p h.1))

length-recent-le : (t : ℕ) (m : List (Name × ℕ)) → length (recent t m) ≤ length m
unfolding recent
length-recent-le t [] = omega arith
length-recent-le t ((k, s) ∷ m) = ground (arith, length-recent-le t m)

length-note_service-le :
    (t : ℕ) (m : List (Name × ℕ)) (svc : Name)
    → length m ≤ max_agent_services
    → length (note_service t m svc) ≤ max_agent_services
unfolding note_service
length-note_service-le t m svc h = ground (arith, has_key_lem svc m, length-insert svc t m)

length-fold-le :
    (t : ℕ) (svcs : List Name) (m : List (Name × ℕ))
    → length m ≤ max_agent_services
    → length (foldl (note_service t) m svcs) ≤ max_agent_services
length-fold-le t [] m h = h
length-fold-le t (svc ∷ svcs) m h =
    length-fold-le t svcs (note_service t m svc) (length-note_service-le t m svc h)

length-note_services-le :
    (t : ℕ) (m : List (Name × ℕ)) (svcs : List Name)
    → length m ≤ max_agent_services
    → length (note_services t m svcs) ≤ max_agent_services
unfolding note_services
length-note_services-le t m svcs h =
    length-fold-le t svcs (if leb max_agent_services (length m) then recent t m else m)
      (ground (arith, length-recent-le t m))

module _ (clean : Name → Name) (overflow : Name) where
  length-alive-le : (now : ℕ) (m : List (Name × Agent)) → length (alive now m) ≤ length m
  unfolding alive
  length-alive-le now [] = omega arith
  length-alive-le now ((k, a) ∷ m) = ground (arith, length-alive-le now m)

  length-alive :
      (now : ℕ) (m : List (Name × Agent))
      → length (alive now m) + room overflow m ≤ length m + room overflow (alive now m)
  unfolding alive
  length-alive now [] = omega arith
  length-alive now ((k, a) ∷ m) =
      if_both
        (λ (xs : List (Name × Agent)).
          length xs + room overflow ((k, a) ∷ m) ≤ length ((k, a) ∷ m) + room overflow xs)
        (ltb agent_ttl (now - a.seen)) (ground (arith, length-alive now m))
        (ground (arith, length-alive now m, length-alive-le now m))

  lookup-alive-none :
      (now : ℕ) (k : Name) (m : List (Name × Agent))
      → lookup k m ≡ none
      → lookup k (alive now m) ≡ none
  unfolding alive
  lookup-alive-none now k [] h = refl
  lookup-alive-none now k ((j, a) ∷ m) h = ground (arith, lookup-alive-none now k m)

  alive-IsMap : (now : ℕ) (m : List (Name × Agent)) → IsMap m → IsMap (alive now m)
  unfolding alive
  alive-IsMap now [] h = tt
  alive-IsMap now ((k, a) ∷ m) h =
      ground (arith, lookup-alive-none now k m h.0, alive-IsMap now m h.1)

  alive-HasFew : (now : ℕ) (m : List (Name × Agent)) → All HasFew m → All HasFew (alive now m)
  unfolding alive
  alive-HasFew now [] h = tt
  alive-HasFew now ((k, a) ∷ m) h =
      if_both (All HasFew) (ltb agent_ttl (now - a.seen)) (alive-HasFew now m h.1)
        (h.0, alive-HasFew now m h.1)

  expire-IsBounded :
      (now : ℕ) (r : Registry)
      → IsBounded overflow r.agents
      → IsBounded overflow (expire now r).agents
  unfolding expire
  expire-IsBounded now r h =
      if_both (λ (q : Registry). IsBounded overflow q.agents) (ltb (now - r.swept) minute) h
        (record {
          agents = omega (arith, h.agents, length-alive now r.agents);
          services = alive-HasFew now r.agents h.services;
          distinct = alive-IsMap now r.agents h.distinct;
        })

  -- A place in the map for an entry `k`: it is there, it is the shared one, or one is free.
  HasPlace : Name → List (Name × Agent) → Type 0
  HasPlace k m = (¬ (lookup k m ≡ none)) ⊎ ((k ≡ overflow) ⊎ (length m < max_agents))

  insert-IsBounded :
      (k : Name) (a : Agent) (m : List (Name × Agent))
      → HasPlace k m
      → HasFew (k, a)
      → IsBounded overflow m
      → IsBounded overflow (insert k a m)
  unfolding HasPlace
  insert-IsBounded k a m place few h = record {
    agents = ground (
      arith,
      place,
      h.agents,
      length-insert k a m,
      lookup-insert k overflow a m,
      list_beq_iff k overflow,
    );
    services = All-insert HasFew k a m few h.services;
    distinct = insert-IsMap k a m h.distinct;
  }

  -- The names of entries only grow when a map is written.
  HasPlace-found : (k : Name) (a : Agent) (m : List (Name × Agent)) → HasPlace k (insert k a m)
  unfolding HasPlace
  HasPlace-found k a m = inl (λ e. ground (arith, e, lookup-insert k k a m, list_beq_iff k k))

  -- What the two handlers need of `getLocked`.
  GivesPlace : Name × Agent × Registry → Type 0
  GivesPlace (k, a, r) = HasFew (k, a) × HasPlace k r.agents × IsBounded overflow r.agents

  lookup-HasFew :
      (k : Name) (a : Agent) (m : List (Name × Agent))
      → All HasFew m
      → lookup k m ≡ some a
      → HasFew (k, a)
  lookup-HasFew k a [] h e = absurd (ground arith)
  lookup-HasFew k a ((j, b) ∷ m) h e = ground (arith, h.0, lookup-HasFew k a m h.1)

  touch_or_new-GivesPlace :
      (now : ℕ) (r : Registry) (k : Name) (o : Option Agent)
      → lookup k r.agents ≡ o
      → (lookup k r.agents ≡ none → HasPlace k r.agents)
      → IsBounded overflow r.agents
      → GivesPlace (touch_or_new clean overflow now r k o)
  unfolding GivesPlace touch_or_new HasPlace
  touch_or_new-GivesPlace now r k (some a) e place h =
      let few : HasFew (k, a) = lookup-HasFew k a r.agents h.services e in
      (
        few,
        HasPlace-found k (record a { seen = now }) r.agents,
        insert-IsBounded k (record a { seen = now }) r.agents
            (inl (λ (n : lookup k r.agents ≡ none). absurd (ground (arith, e, n)))) few h,
      )
  touch_or_new-GivesPlace now r k none e place h = (
    omega arith,
    HasPlace-found k (record new_agent { seen = now }) r.agents,
    insert-IsBounded k (record new_agent { seen = now }) r.agents (place e) (omega arith) h,
  )

  get_found-GivesPlace :
      (now : ℕ) (r : Registry) (k : Name) (o : Option Agent)
      → lookup k r.agents ≡ o
      → IsBounded overflow r.agents
      → GivesPlace (get_found clean overflow now r k o)
  unfolding get_found HasPlace
  get_found-GivesPlace now r k (some a) e h =
      touch_or_new-GivesPlace now r k (some a) e (λ n. absurd (ground (arith, e, n))) h
  get_found-GivesPlace now r k none e h =
      let r' = expire now r in
      touch_or_new-GivesPlace now r' (if leb max_agents (length r'.agents) then overflow else k) _
        refl (λ n. inr (ground arith)) (expire-IsBounded now r h)

  get_locked-GivesPlace :
      (name : Name) (now : ℕ) (r : Registry)
      → IsBounded overflow r.agents
      → GivesPlace (get_locked clean overflow name now r)
  unfolding get_locked
  get_locked-GivesPlace name now r h =
      get_found-GivesPlace now r (clean name) (lookup (clean name) r.agents) refl h

  record_push-IsBounded :
      (name : Name) (step : ℤ) (lines : ℕ) (svcs : List Name) (now : ℕ) (r : Registry)
      → IsBounded overflow r.agents
      → IsBounded overflow (record_push clean overflow name step lines svcs now r).agents
  unfolding record_push GivesPlace
  record_push-IsBounded name step lines svcs now r h =
      let (few, place, bounded) = get_locked-GivesPlace name now r h in
      insert-IsBounded _ _ _ place (length-note_services-le now _ svcs few) bounded

  reject-IsBounded :
      (name : Name) (step : ℤ) (now : ℕ) (r : Registry)
      → IsBounded overflow r.agents
      → IsBounded overflow (reject clean overflow name step now r).agents
  unfolding reject GivesPlace
  reject-IsBounded name step now r h =
      let (few, place, bounded) = get_locked-GivesPlace name now r h in
      insert-IsBounded _ _ _ place few bounded

  -- Whatever the pushes that are accepted and refused, in whatever order and at whatever times: the
  -- registry has `maxAgents` entries at most, and one more only if that is the shared entry; each
  -- has `maxAgentServices` services at most; and no agent has two entries.
  pub handle_all-IsBounded :
      (reqs : List Request) → IsBounded overflow (handle_all clean overflow reqs).agents
  unfolding handle_all
  handle_all-IsBounded [] = record { agents = omega arith; services = tt; distinct = tt }
  handle_all-IsBounded (accepted name step lines svcs now ∷ reqs) =
      record_push-IsBounded name step lines svcs now _ (handle_all-IsBounded reqs)
  handle_all-IsBounded (refused name step now ∷ reqs) =
      reject-IsBounded name step now _ (handle_all-IsBounded reqs)
