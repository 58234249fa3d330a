-- ===== src/Tests/Miners.antt =====
-- drain.go: a miner with room for one template.
use self_hosted_anomaly_dete.Common.{◌≡◌, refl, ◌↔◌, some, List, [], ◌∷◌, arith, inl, inr}
use self_hosted_anomaly_dete.Drain.{Token, param, Config, generalise, change, unchanged}
use self_hosted_anomaly_dete.Drain.Mining.{new_miner, add}
use self_hosted_anomaly_dete.Drain.Recency.{IsCapped, add-IsCapped, new_miner-IsSound}
use self_hosted_anomaly_dete.Drain.Templates.{Matches, generalise_lem}
use self_hosted_anomaly_dete.Tests.Toy.{toy}

abbrev config : Config toy
config = record { depth = 4; sim_th = some 1; max_children = 100; max_clusters = 1 }

abbrev line : List Token
line = (97 ∷ []) ∷ (98 ∷ []) ∷ []

add-IsCapped_example : IsCapped toy 1 (add toy (new_miner toy config) line 1).0
unfolding new_miner
add-IsCapped_example =
    add-IsCapped toy (new_miner toy config) line 1 (new_miner-IsSound toy config) (λ h. omega arith)

abbrev template : List Token
template = (97 ∷ []) ∷ param ∷ []

generalise_lem_example :
    Matches (generalise template ((99 ∷ []) ∷ (98 ∷ []) ∷ [])) ((99 ∷ []) ∷ (98 ∷ []) ∷ [])
    × Matches (generalise template ((99 ∷ []) ∷ (98 ∷ []) ∷ [])) line
    × ((change template ((99 ∷ []) ∷ (98 ∷ []) ∷ []) ≡ unchanged)
        ↔ Matches template ((99 ∷ []) ∷ (98 ∷ []) ∷ []))
    × ((generalise template ((99 ∷ []) ∷ (98 ∷ []) ∷ []) ≡ template)
        ↔ Matches template ((99 ∷ []) ∷ (98 ∷ []) ∷ []))
generalise_lem_example =
    generalise_lem template ((99 ∷ []) ∷ (98 ∷ []) ∷ []) line refl (inr refl, (inl refl, tt))
