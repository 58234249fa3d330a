-- ===== src/Agent/Backlog.antt =====
-- agent.go: what a failed push puts back.
use self_hosted_anomaly_dete.Common.{
  ℕ, ◌+◌, ◌≤◌, max, ◌≡◌, ◌⊎◌, inl, inr, refl, false, Option, none, some, List, [], ◌∷◌, leb,
  if◌then◌else◌, length, arith, All, Bool-cases, ◌≢◌, if_cases, ==_iff, ◌==◌,
}
use self_hosted_anomaly_dete.Common.Keys.{
  same, same_self, nat_eq, list_eq, pair_eq, lookup, insert, lookup-insert, length-insert, IsMap,
}
use self_hosted_anomaly_dete.Agent.{
  CountKey, key_eq, CountVal, Counts, number_at, bump, buckets_of, add_all, text_or, put_back_one,
  put_back,
}

-- The lines of a key in a bucket.
abbrev pub lines_at : Counts → CountKey → ℕ → ℕ
lines_at counts k b = number_at b (buckets_of (lookup k counts))

-- The keys that the counts do not have yet.
abbrev pub fresh : Counts → Counts → ℕ
fresh [] counts = 0
fresh ((k, v) ∷ old) counts = fresh old counts + (elim (lookup k counts) [ none ↦ 1 | some w ↦ 0 ])

pub number_at-bump :
    (b j n : ℕ) (m : List (ℕ × ℕ))
    → number_at j (bump b n m) ≡ (if b == j then number_at j m + n else number_at j m)
unfolding bump
number_at-bump b j n m = ground (arith, lookup-insert b j (number_at b m + n) m, ==_iff b j)

number_at-add_all :
    (j : ℕ) (bs m : List (ℕ × ℕ))
    → IsMap bs
    → number_at j (add_all bs m) ≡ number_at j bs + number_at j m
unfolding add_all
number_at-add_all j [] m h = omega arith
number_at-add_all j ((b, n) ∷ bs) m h =
    ground (arith, number_at-add_all j bs (bump b n m) h.1, number_at-bump b j n m, ==_iff b j, h.0)

abbrev is_new : Option CountVal → ℕ
is_new none = 1
is_new (some w) = 0

-- What one key of a failed push does to the counts.
record PutsOne (bound : ℕ) (k : CountKey) (v : CountVal) (cur : Counts) (dropped : ℕ)
    (r : Counts × ℕ) : Type 0 where
  others : (j : CountKey) → same k j ≡ false → lookup j r.0 ≡ lookup j cur
  present : lookup k r.0 ≡ none → lookup k cur ≡ none
  sums :
      (b : ℕ)
      → (lookup k r.0 ≡ none) ⊎ (lines_at r.0 k b ≡ number_at b v.buckets + lines_at cur k b)
  size : length r.0 ≤ max (length cur) bound
  counted : r.1 + length r.0 ≡ dropped + length cur + is_new (lookup k cur)

put_back_one-PutsOne :
    (bound : ℕ) (k : CountKey) (v : CountVal) (cur : Counts) (dropped : ℕ) (o : Option CountVal)
    → lookup k cur ≡ o
    → IsMap v.buckets
    → PutsOne bound k v cur dropped (put_back_one bound k v (cur, dropped) o)
unfolding put_back_one
put_back_one-PutsOne bound k v cur dropped none e h =
    if_cases (PutsOne bound k v cur dropped) (leb bound (length cur))
      (λ full. record {
        others = λ j d. refl;
        present = λ d. d;
        sums = λ b. inl e;
        size = omega arith;
        counted = ground (arith, e);
      })
      (λ room. record {
        others = λ j d. ground (arith, d, lookup-insert k j v cur);
        present = λ d. e;
        sums = λ b. inr (ground (arith, e, lookup-insert k k v cur, same_self k));
        size = ground (arith, room, e, length-insert k v cur);
        counted = ground (arith, e, length-insert k v cur);
      })
put_back_one-PutsOne bound k v cur dropped (some w) e h = record {
  others = λ j d. ground (arith, d, lookup-insert k j both cur);
  present = λ d. absurd (kept d);
  sums = λ b. inr (ground (arith, e, found, number_at-add_all b v.buckets w.buckets h));
  size = ground (arith, e, length-insert k both cur);
  counted = ground (arith, e, length-insert k both cur);
}
  where
    both : CountVal
    both = record {
      template = text_or w.template v.template;
      buckets = add_all v.buckets w.buckets;
    }

    found : lookup k (insert k both cur) ≡ some both
    found = ground (arith, lookup-insert k k both cur, same_self k)

    kept : lookup k (insert k both cur) ≢ none
    kept d = ground (arith, found, d)

-- What a failed push leaves: `counted` says that every key that was not there is kept or dropped.
pub record PutsBack (bound : ℕ) (old cur : Counts) (dropped : ℕ) (r : Counts × ℕ) : Type 0 where
  pub present : (k : CountKey) → lookup k r.0 ≡ none → lookup k cur ≡ none
  pub others : (k : CountKey) → lookup k old ≡ none → lookup k r.0 ≡ lookup k cur
  pub sums :
      (k : CountKey) (b : ℕ)
      → (lookup k r.0 ≡ none) ⊎ (lines_at r.0 k b ≡ lines_at old k b + lines_at cur k b)
  pub size : length r.0 ≤ max (length cur) bound
  pub counted : r.1 + length r.0 ≡ dropped + length cur + fresh old cur

abbrev pub HasMaps : Counts → Type 0
HasMaps = All (λ c. IsMap c.1.buckets)

fresh_agree :
    (rest cur cur' : Counts) (k : CountKey)
    → lookup k rest ≡ none
    → IsMap rest
    → ((j : CountKey) → same k j ≡ false → lookup j cur' ≡ lookup j cur)
    → fresh rest cur' ≡ fresh rest cur
fresh_agree [] cur cur' k e m h = refl
fresh_agree ((j, v) ∷ rest) cur cur' k e m h =
    let d = other_key in rw (h j d, fresh_agree rest cur cur' k (tail d) m.1 h) refl
  where
    other_key : same k j ≡ false
    other_key = ground (arith, e, key_eq.beq_iff j k, key_eq.beq_iff k j)

    tail : same k j ≡ false → lookup k rest ≡ none
    tail d = ground (arith, e, d, key_eq.beq_iff j k, key_eq.beq_iff k j)

-- One key, and then the rest of them.
module _ (bound : ℕ) (k0 : CountKey) (v : CountVal) (old cur : Counts) (dropped : ℕ)
    (st r : Counts × ℕ) (one : PutsOne bound k0 v cur dropped st)
    (rest : PutsBack bound old st.0 st.1 r) (m : IsMap ((k0, v) ∷ old)) where
  present_both : (k : CountKey) → lookup k r.0 ≡ none → lookup k cur ≡ none
  present_both k d =
      ground (arith, rest.present k d, one.others k, one.present, key_eq.beq_iff k0 k)

  others_both : (k : CountKey) → lookup k ((k0, v) ∷ old) ≡ none → lookup k r.0 ≡ lookup k cur
  others_both k d = elim (Bool-cases (same k0 k)) [
    | inl e ↦ absurd (ground (arith, e, d))
    | inr e ↦ ground (arith, e, d, rest.others k, one.others k e)
  ]

  sums_self :
      (b : ℕ)
      → (lookup k0 r.0 ≡ none) ⊎ (lines_at r.0 k0 b ≡ number_at b v.buckets + lines_at cur k0 b)
  sums_self b = ground (arith, rest.others k0 m.0, one.sums b)

  sums_both :
      (k : CountKey) (b : ℕ)
      → (lookup k r.0 ≡ none) ⊎ (lines_at r.0 k b ≡ lines_at ((k0, v) ∷ old) k b + lines_at cur k b)
  sums_both k b = elim (Bool-cases (same k0 k)) [
    | inl e ↦ ground (arith, e, sums_self b, key_eq.beq_iff k0 k)
    | inr e ↦ ground (arith, e, rest.sums k b, one.others k e)
  ]

  put_back_step : PutsBack bound ((k0, v) ∷ old) cur dropped r
  put_back_step = record {
    present = present_both;
    others = others_both;
    sums = sums_both;
    size = omega (arith, one.size, rest.size);
    counted = counted_both;
  }
    where
      counted_both : r.1 + length r.0 ≡ dropped + length cur + fresh ((k0, v) ∷ old) cur
      counted_both =
          omega (arith, one.counted, rest.counted, fresh_agree old cur st.0 k0 m.0 m.1 one.others)

-- A push that fails puts its counts back on those that came in meanwhile. A key that was there
-- stays, and one that the push does not have is as it was; under every key that is kept, each
-- bucket has the lines of both; the backlog does not grow beyond its bound unless it was beyond;
-- and each new key is kept or counted as dropped.
pub put_back-PutsBack :
    (bound : ℕ) (old cur : Counts) (dropped : ℕ)
    → IsMap old
    → HasMaps old
    → PutsBack bound old cur dropped (put_back bound old (cur, dropped))
unfolding put_back
put_back-PutsBack bound [] cur dropped m h = record {
  present = λ k d. d;
  others = λ k d. refl;
  sums = λ k b. inr (omega arith);
  size = omega arith;
  counted = omega arith;
}
put_back-PutsBack bound ((k, v) ∷ old) cur dropped m h =
    let st = put_back_one bound k v (cur, dropped) (lookup k cur) in
    put_back_step bound k v old cur dropped st (put_back bound old st)
      (put_back_one-PutsOne bound k v cur dropped (lookup k cur) refl h.0)
      (put_back-PutsBack bound old st.0 st.1 m.1 h.1) m
