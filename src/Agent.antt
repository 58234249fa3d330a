-- ===== src/Agent.antt =====
-- anomalyd/internal/agent/agent.go: the agent's counts of lines by template, and the lines it
-- reads. The clock, the files and the HTTP client are outside: a chunk is what one `Read` gives,
-- and a push is given the outcome of its `post`. A pointer to a miner is the key that the pool
-- keeps it under.
pub mod Backlog
pub mod Tail
pub mod Lines
pub mod Merging
pub mod Items
use self_hosted_anomaly_dete.Common.{
  ℕ, ◌+◌, Bool, true, false, Option, none, some, List, [], ◌∷◌, leb, if◌then◌else◌, length,
}
use self_hosted_anomaly_dete.Common.Keys.{nat_eq, list_eq, pair_eq, Eq, lookup, insert}
use self_hosted_anomaly_dete.Common.Text.{Text}

-- The miner's service, the template's id and the level.
abbrev pub CountKey : Type 0
CountKey = (Text × ℕ) × Text

instance abbrev pub key_eq : Eq CountKey
key_eq = pair_eq ⦃e = pair_eq⦄

pub record LocalCount : Type 0 where
  pub lines : ℕ
  pub template : Text

-- The lines of each bucket, and the last known text of the template.
pub record CountVal : Type 0 where
  pub template : Text
  pub buckets : List (ℕ × ℕ)

abbrev pub Counts : Type 0
Counts = List (CountKey × CountVal)

pub record Agent : Type 0 where
  pub max_backlog : ℕ
  pub counts : Counts
  pub lines : ℕ
  pub pushes : ℕ
  pub push_errors : ℕ
  pub dropped : ℕ

-- `m[k]` of a map of numbers.
abbrev pub number_at : ℕ → List (ℕ × ℕ) → ℕ
number_at b m = elim (lookup b m) [ none ↦ 0 | some n ↦ n ]

-- `m[k] += n`
unfoldable pub bump : ℕ → ℕ → List (ℕ × ℕ) → List (ℕ × ℕ)
bump b n m = insert b (number_at b m + n) m

abbrev pub buckets_of : Option CountVal → List (ℕ × ℕ)
buckets_of none = []
buckets_of (some v) = v.buckets

-- The loop of `merge`: the counts, and the lines.
unfoldable pub merge_counts : ℕ → List (CountKey × LocalCount) → Counts → ℕ → Counts × ℕ
merge_counts bucket [] counts n = (counts, n)
merge_counts bucket ((k, c) ∷ local) counts n =
    merge_counts bucket local
      (insert k
        (record {
          template = c.template;
          buckets = bump bucket c.lines (buckets_of (lookup k counts));
        })
        counts)
      (n + c.lines)

unfoldable pub merge : ℕ → List (CountKey × LocalCount) → Agent → Agent
merge bucket local a =
    let (counts, n) = merge_counts bucket local a.counts 0 in
    record a { counts = counts; lines = a.lines + n }

-- The loop over `v.buckets` of a failed push.
unfoldable pub add_all : List (ℕ × ℕ) → List (ℕ × ℕ) → List (ℕ × ℕ)
add_all [] m = m
add_all ((b, n) ∷ bs) m = add_all bs (bump b n m)

abbrev pub text_or : Text → Text → Text
text_or [] other = other
text_or (c ∷ s) other = c ∷ s

-- The body of the loop of a failed push, given what the counts have under the key: the counts and
-- the number of dropped keys.
unfoldable pub put_back_one : ℕ → CountKey → CountVal → Counts × ℕ → Option CountVal → Counts × ℕ
put_back_one bound k v (counts, dropped) none =
    if leb bound (length counts) then (counts, dropped + 1) else (insert k v counts, dropped)
put_back_one bound k v (counts, dropped) (some cur) = (
  insert k
      (record {
        template = text_or cur.template v.template;
        buckets = add_all v.buckets cur.buckets;
      })
      counts,
  dropped,
)

unfoldable pub put_back : ℕ → Counts → Counts × ℕ → Counts × ℕ
put_back bound [] st = st
put_back bound ((k, v) ∷ old) st = put_back bound old (put_back_one bound k v st (lookup k st.0))

-- `push` up to the request: the counts that are sent, and the agent without them.
unfoldable pub take_counts : Agent → Counts × Agent
take_counts a = (a.counts, record a { counts = [] })

-- `push` behind the request, which `sent` says the outcome of.
unfoldable pub settle : Counts → Bool → Agent → Agent
settle old true a = record a { pushes = a.pushes + 1 }
settle old false a =
    let (counts, dropped) = put_back a.max_backlog old (a.counts, a.dropped) in
    record a {
      counts = counts;
      dropped = dropped;
      pushes = a.pushes + 1;
      push_errors = a.push_errors + 1;
    }

-- `push`, where no count comes in while the request is under way. Without a server the counts go.
unfoldable pub push : Bool → Bool → Agent → Agent
push has_server sent a =
    let (old, a') = take_counts a in if has_server then settle old sent a' else a'
