-- ===== src/Agent/Items.antt =====
-- agent.go, `push`: the items of the request.
use self_hosted_anomaly_dete.Common.{
  ℕ, ◌≤◌, ◌<◌, ◌≡◌, refl, ◌∙◌, false, Option, none, some, List, [], ◌∷◌, map, ltb, ◌==◌,
  if◌then◌else◌, arith, ==_iff, if_cases, All, ltb→lt,
}
use self_hosted_anomaly_dete.Common.Int.{ℤ, pos}
use self_hosted_anomaly_dete.Common.Keys.{nat_eq, lookup, IsMap}
use self_hosted_anomaly_dete.Floats.{Floats}
use self_hosted_anomaly_dete.Drain.{Cluster}
use self_hosted_anomaly_dete.Drain.Pool.{Pool}
use self_hosted_anomaly_dete.Wire.{Item}
use self_hosted_anomaly_dete.Agent.{CountKey, CountVal, Counts}
use self_hosted_anomaly_dete.Agent.Lines.{miner_at, join_tokens}

-- `sort.Slice` of the buckets, of which no two have the same start.
abbrev pub place : ℕ × ℕ → List (ℕ × ℕ) → List (ℕ × ℕ)
place c [] = c ∷ []
place c (d ∷ cs) = if ltb d.0 c.0 then d ∷ place c cs else c ∷ d ∷ cs

unfoldable pub sort_counts : List (ℕ × ℕ) → List (ℕ × ℕ)
sort_counts [] = []
sort_counts (c ∷ cs) = place c (sort_counts cs)

abbrev pub signed_count : ℕ × ℕ → ℤ × ℤ
signed_count c = (pos c.0, pos c.1)

abbrev pub item_of : CountKey → CountVal → Item
item_of ((service, id), level) v = record {
  service = service;
  template = v.template;
  level = level;
  counts = map signed_count (sort_counts v.buckets);
}

module _ (fl : Floats) (pool : Pool fl) where
  abbrev pub text_or_last : CountVal → Option Cluster → CountVal
  text_or_last v none = v
  text_or_last v (some c) = record v { template = join_tokens c.tokens }

  -- The template's text now, unless it was evicted.
  abbrev pub resolved : CountKey → CountVal → CountVal
  resolved ((service, id), level) v = text_or_last v (lookup id (miner_at fl pool service).clusters)

  -- The loop over the counts: they keep the texts, for a push that fails.
  unfoldable pub push_items : Counts → Counts × List Item
  push_items [] = ([], [])
  push_items ((k, v) ∷ counts) =
      let v' = resolved k v in
      let (counts', items) = push_items counts in ((k, v') ∷ counts', item_of k v' ∷ items)

-- Strictly ascending starts.
abbrev pub IsAscending : List (ℕ × ℕ) → Type 0
IsAscending [] = Unit
IsAscending (c ∷ cs) = All (λ d. c.0 < d.0) cs × IsAscending cs

All-place :
    (P : ℕ × ℕ → Type 0) (c : ℕ × ℕ) (cs : List (ℕ × ℕ)) → P c → All P cs → All P (place c cs)
All-place P c [] p h = (p, tt)
All-place P c (d ∷ cs) p h =
    if_cases (All P) (ltb d.0 c.0) (λ e. (h.0, All-place P c cs p h.1)) (λ e. (p, h))

All-above : (b c : ℕ) (cs : List (ℕ × ℕ)) → b ≤ c → All (λ d. c < d.0) cs → All (λ d. b < d.0) cs
All-above b c [] l h = tt
All-above b c (d ∷ cs) l h = (omega (arith, h.0), All-above b c cs l h.1)

place-IsAscending :
    (c : ℕ × ℕ) (cs : List (ℕ × ℕ))
    → lookup c.0 cs ≡ none
    → IsAscending cs
    → IsAscending (place c cs)
place-IsAscending c [] m h = (tt, tt)
place-IsAscending c (d ∷ cs) m h =
    if_cases IsAscending (ltb d.0 c.0)
      (λ e. (
        All-place (λ x. d.0 < x.0) c cs (ltb→lt d.0 c.0 e) h.0,
        place-IsAscending c cs (ground (arith, m)) h.1,
      ))
      (λ e. let l = above e in ((l, All-above c.0 d.0 cs (omega (arith, l)) h.0), h))
  where
    above : ltb d.0 c.0 ≡ false → c.0 < d.0
    above e = ground (arith, m, e)

lookup-place :
    (c : ℕ × ℕ) (cs : List (ℕ × ℕ)) (b : ℕ)
    → lookup c.0 cs ≡ none
    → lookup b (place c cs) ≡ (if c.0 == b then some c.1 else lookup b cs)
lookup-place c [] b m = refl
lookup-place c (d ∷ cs) b m =
    ground (arith, m, lookup-place c cs b, ==_iff c.0 b, ==_iff d.0 b, ==_iff d.0 c.0)

-- The counts of an item are in the order of their buckets, which are those of the map with their
-- numbers.
pub sort_counts-lookup :
    (m : List (ℕ × ℕ))
    → IsMap m
    → IsAscending (sort_counts m) × ((b : ℕ) → lookup b (sort_counts m) ≡ lookup b m)
unfolding sort_counts
sort_counts-lookup [] h = (tt, λ b. refl)
sort_counts-lookup (c ∷ m) h =
    let rest = sort_counts-lookup m h.1 in
    (
      place-IsAscending c (sort_counts m) (rest.1 c.0 ∙ h.0) rest.0,
      λ b. ground (arith, lookup-place c (sort_counts m) b, rest.1 b, rest.1 c.0, h.0),
    )
