-- ===== src/Tests/Registry.antt =====
-- agents.go: two pushes of one agent and a refused one of another.
use self_hosted_anomaly_dete.Common.{List, [], ◌∷◌}
use self_hosted_anomaly_dete.Common.Int.{pos}
use self_hosted_anomaly_dete.Agents.{Name, Request, accepted, refused, clean_service, handle_all}
use self_hosted_anomaly_dete.Agents.Bounds.{IsBounded, handle_all-IsBounded}

abbrev same_name : Name → Name
same_name n = n

abbrev overflow : Name
overflow = b'_' ∷ []

abbrev requests : List Request
requests =
    accepted (97 ∷ []) (pos 60) 5 ((1 ∷ []) ∷ []) 200
    ∷ refused (98 ∷ []) (pos 60) 150
    ∷ accepted (97 ∷ []) (pos 60) 5 ((1 ∷ []) ∷ (2 ∷ []) ∷ []) 100
    ∷ []

handle_all-IsBounded_example :
    IsBounded overflow (handle_all (clean_service same_name same_name) overflow requests).agents
handle_all-IsBounded_example =
    handle_all-IsBounded (clean_service same_name same_name) overflow requests
