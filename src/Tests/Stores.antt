-- ===== src/Tests/Stores.antt =====
-- store.go, `Store`, with a cap of one series.
use self_hosted_anomaly_dete.Common.{ℕ, ◌≡◌, none, some, [], ◌∷◌, length, if◌then◌else◌}
use self_hosted_anomaly_dete.Common.Keys.{nat_eq, list_eq, list_beq}
use self_hosted_anomaly_dete.Series.{Series, mean, new_series}
use self_hosted_anomaly_dete.Store.{Key, Store, Made, new_store, find, update, is_full}
use self_hosted_anomaly_dete.Store.Find.{find-update}
use self_hosted_anomaly_dete.Store.Count.{IsSound, update-IsSound, new_store-IsSound}
use self_hosted_anomaly_dete.Tests.Toy.{toy}

abbrev hash : Key → ℕ
hash = length

abbrev made : Made ℕ
made = record { labels = []; agg = mean; info = 0 }

abbrev empty : Store toy ℕ
empty = new_store toy 4 1

abbrev counted : Series toy ℕ → Series toy ℕ
counted s = record s { cnt = 7 }

find-update_example : find toy hash (update toy hash empty (1 ∷ []) made counted).0 (2 ∷ []) ≡ (
    if list_beq {A = ℕ} (1 ∷ []) (2 ∷ [])
    then elim (find toy hash empty (1 ∷ [])) [
      | some s ↦ some (counted s)
      | none ↦
          if is_full toy empty then none else some (counted (new_series toy (1 ∷ []) [] mean 4 0))
    ]
    else find toy hash empty (2 ∷ []))
find-update_example =
    find-update toy hash empty (new_store-IsSound toy ℕ 4 1).sharded (1 ∷ []) (2 ∷ []) made counted

update-IsSound_example : IsSound (update toy hash empty (1 ∷ []) made counted).0
update-IsSound_example =
    update-IsSound toy hash empty (new_store-IsSound toy ℕ 4 1) (1 ∷ []) made counted

-- The store with one series, which `Delete` is asked to drop.
abbrev one : Store toy ℕ
one = (update toy hash empty (1 ∷ []) made counted).0
