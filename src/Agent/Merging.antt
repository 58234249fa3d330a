-- ===== src/Agent/Merging.antt =====
-- agent.go: what `line` and `merge` count.
use self_hosted_anomaly_dete.Common.{
  ℕ, suc, ◌+◌, ◌≡◌, ◌&&◌, Option, List, [], ◌∷◌, ◌==◌, if◌then◌else◌, arith,
}
use self_hosted_anomaly_dete.Common.Keys.{same, nat_eq, lookup, insert, lookup-insert, IsMap}
use self_hosted_anomaly_dete.Common.Text.{Text}
use self_hosted_anomaly_dete.Floats.{Floats}
use self_hosted_anomaly_dete.Drain.{Change}
use self_hosted_anomaly_dete.Drain.Pool.{Pool}
use self_hosted_anomaly_dete.Agent.{
  CountKey, key_eq, LocalCount, CountVal, Counts, bump, buckets_of, merge_counts,
}
use self_hosted_anomaly_dete.Agent.Backlog.{lines_at, number_at-bump}
use self_hosted_anomaly_dete.Agent.Lines.{mine_message, local_or_new, counted, count_in}

abbrev pub Local : Type 0
Local = List (CountKey × LocalCount)

abbrev pub local_lines : CountKey → Local → ℕ
local_lines k local = (local_or_new (lookup k local)).lines

abbrev pub total : Local → ℕ
total [] = 0
total ((k, c) ∷ local) = c.lines + total local

total-insert :
    (k : CountKey) (c : LocalCount) (local : Local)
    → total (insert k c local) + local_lines k local ≡ total local + c.lines
total-insert k c [] = omega arith
total-insert k c ((j, d) ∷ local) = ground (arith, total-insert k c local)

total-count_in :
    (k : CountKey) (text : Text) (ch : Change) (local : Local)
    → total (count_in k text ch local) ≡ suc (total local)
unfolding count_in
total-count_in k text ch local =
    omega (arith, total-insert k (counted text ch (local_or_new (lookup k local))) local)

-- Every message that is mined is one line more, whatever its template and the pool do.
pub total-mine_message :
    (fl : Floats) (message : Text × Text × Text) (pool : Pool fl) (local : Local)
    → total (mine_message fl message (pool, local)).1 ≡ suc (total local)
unfolding mine_message
total-mine_message fl (msg, svc, level) pool local = total-count_in _ _ _ local

-- What `merge` adds: to each key its lines, in the bucket of the reading and in no other, and to
-- the number of lines all of them.
pub record Adds (bucket : ℕ) (local : Local) (counts : Counts) (n : ℕ) (r : Counts × ℕ)
    : Type 0 where
  pub at_key :
      (k : CountKey) (b : ℕ)
      → lines_at r.0 k b ≡ lines_at counts k b + (if bucket == b then local_lines k local else 0)
  pub lines : r.1 ≡ n + total local

-- The value that `merge` puts under a key.
abbrev added : ℕ → LocalCount → Option CountVal → CountVal
added bucket c o = record { template = c.template; buckets = bump bucket c.lines (buckets_of o) }

lines_at-added :
    (bucket : ℕ) (k0 k : CountKey) (c : LocalCount) (counts : Counts) (b : ℕ)
    → lines_at (insert k0 (added bucket c (lookup k0 counts)) counts) k b
      ≡ lines_at counts k b + (if same k0 k && bucket == b then c.lines else 0)
lines_at-added bucket k0 k c counts b = ground (
  arith,
  lookup-insert k0 k (added bucket c (lookup k0 counts)) counts,
  number_at-bump bucket b c.lines (buckets_of (lookup k0 counts)),
  key_eq.beq_iff k0 k,
)

-- `merge` of what one reading counted, which has no key twice.
pub merge_counts-Adds :
    (bucket : ℕ) (local : Local) (counts : Counts) (n : ℕ)
    → IsMap local
    → Adds bucket local counts n (merge_counts bucket local counts n)
unfolding merge_counts
merge_counts-Adds bucket [] counts n m = record {
  at_key = λ k b. ground arith;
  lines = omega arith;
}
merge_counts-Adds bucket ((k0, c) ∷ local) counts n m =
    let counts' = insert k0 (added bucket c (lookup k0 counts)) counts in
    let rest = merge_counts-Adds bucket local counts' (n + c.lines) m.1 in
    record {
      at_key = λ k b.
          ground (
            arith,
            rest.at_key k b,
            lines_at-added bucket k0 k c counts b,
            key_eq.beq_iff k0 k,
            m.0,
          );
      lines = omega (arith, rest.lines);
    }
