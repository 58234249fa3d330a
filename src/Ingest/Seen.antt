-- ===== src/Ingest/Seen.antt =====
-- ingest.go, `markSeen` and `seen`: the buckets that remote write delivered.
use self_hosted_anomaly_dete.Common.{
  ℕ, zero, suc, ◌%◌, ◌≤◌, ◌<◌, max, ◌≡◌, refl, ap, ◌∙◌, Bool, true, false, not, ◌&&◌, List, [], ◌∷◌,
  leb, ◌==◌, if◌then◌else◌, length, get_or, set, arith, length-set, get_or-set_self, get_or-set_ne,
  replicate, length-replicate, ==_iff, Bool-cases, inl, inr,
}
use mathlib.Core.Path.{subst}
use native.Mathlib.Nat.{mod-lt}
use self_hosted_anomaly_dete.Common.Int.{ℤ, pos, negsuc}
use self_hosted_anomaly_dete.Floats.{Floats}
use self_hosted_anomaly_dete.Promrw.{Sample}
use self_hosted_anomaly_dete.Ingest.{
  Batch, take_finite, take_undefined, take_sample, take_samples, mark_bucket, mark_seen, seen,
  is_refused, bucket_of, is_pos, same_ℤ,
}

-- The latest bucket above 0 of a list among those that share a slot, 0 for none.
abbrev pub latest : ℕ → ℕ → List ℤ → ℕ
latest n i [] = 0
latest n i (pos b ∷ bs) = if b % n == i then max b (latest n i bs) else latest n i bs
latest n i (negsuc b ∷ bs) = latest n i bs

abbrev slot : List ℕ → ℕ → ℕ
slot ring i = get_or ring i 0

length-mark_bucket : (ring : List ℕ) (b : ℕ) → length (mark_bucket ring b) ≡ length ring
unfolding mark_bucket
length-mark_bucket ring b = ground (arith, length-set ring (b % length ring) b)

slot-raised :
    (ring : List ℕ) (j b i : ℕ)
    → j < length ring
    → slot (if leb b (slot ring j) then ring else set ring j b) i
      ≡ (if j == i then max b (slot ring i) else slot ring i)
slot-raised ring j b i h = elim (Bool-cases (j == i)) [
  | inl e ↦ ground (arith, e, ==_iff j i, get_or-set_self ring j b 0 h)
  | inr e ↦
      ground (arith, e, get_or-set_ne ring {i = j} {j = i} b 0 (λ q. absurd (ground (arith, e, q))))
]

slot-mark_bucket :
    (ring : List ℕ) (b i : ℕ)
    → 0 < length ring
    → slot (mark_bucket ring b) i
      ≡ (if b % length ring == i then max b (slot ring i) else slot ring i)
unfolding mark_bucket
slot-mark_bucket ring b i h = slot-raised ring (b % length ring) b i (mod-lt b h)

-- A ring of its size whose slots have the latest of the buckets and of what they had before.
pub record Marks (ring : List ℕ) (bs : List ℤ) (ring' : List ℕ) : Type 0 where
  pub size : length ring' ≡ length ring
  pub slots : (i : ℕ) → get_or ring' i 0 ≡ max (get_or ring i 0) (latest (length ring) i bs)

Marks-skip : (ring : List ℕ) → Marks ring [] ring
Marks-skip ring = record { size = refl; slots = λ i. omega arith }

Marks-one :
    (ring ring' : List ℕ) (b : ℤ) (bs : List ℤ)
    → 0 < length ring
    → Marks (mark_seen ring b) bs ring'
    → Marks ring (b ∷ bs) ring'
Marks-one ring ring' (negsuc b) bs h m = record { size = m.size; slots = m.slots }
Marks-one ring ring' (pos zero) bs h m = record {
  size = m.size;
  slots = λ i. ground (arith, m.slots i);
}
Marks-one ring ring' (pos (suc b)) bs h m =
    let n = length-mark_bucket ring (suc b) in
    record {
      size = m.size ∙ n;
      slots = λ i. m.slots i ∙ rw n (ground (arith, slot-mark_bucket ring (suc b) i h));
    }

-- A bucket above 0 that its slot shows is not marked again.
abbrev pub IsMarked : List ℕ → ℤ → Type 0
IsMarked ring (pos (suc b)) = suc b ≤ get_or ring (suc b % length ring) 0
IsMarked ring _ = Unit

Marks-again :
    (ring ring' : List ℕ) (b : ℤ) (bs : List ℤ)
    → IsMarked ring b
    → Marks ring bs ring'
    → Marks ring (b ∷ bs) ring'
Marks-again ring ring' (negsuc b) bs h m = record { size = m.size; slots = m.slots }
Marks-again ring ring' (pos zero) bs h m = record {
  size = m.size;
  slots = λ i. ground (arith, m.slots i);
}
Marks-again ring ring' (pos (suc b)) bs h m = record {
  size = m.size;
  slots = λ i. ground (arith, m.slots i, ==_iff (suc b % length ring) i);
}

IsMarked-mark_seen : (ring : List ℕ) (b : ℤ) → 0 < length ring → IsMarked (mark_seen ring b) b
IsMarked-mark_seen ring (negsuc b) h = tt
IsMarked-mark_seen ring (pos zero) h = tt
IsMarked-mark_seen ring (pos (suc b)) h =
    rw (length-mark_bucket ring (suc b))
      (ground (arith, slot-mark_bucket ring (suc b) (suc b % length ring) h))

IsMarked-stale :
    (ring : List ℕ) (b marked : ℤ)
    → (not (same_ℤ b marked) && is_pos b) ≡ false
    → IsMarked ring marked
    → IsMarked ring b
IsMarked-stale ring (negsuc b) marked e h = tt
IsMarked-stale ring (pos zero) marked e h = tt
IsMarked-stale ring (pos (suc b)) (negsuc m) e h = absurd (ground (arith, e))
IsMarked-stale ring (pos (suc b)) (pos zero) e h = absurd (ground (arith, e))
IsMarked-stale ring (pos (suc b)) (pos (suc m)) e h =
    let q : suc m ≡ suc b = ground (arith, e) in subst (λ c. IsMarked ring (pos c)) q h

length-mark_seen : (ring : List ℕ) (b : ℤ) → length (mark_seen ring b) ≡ length ring
length-mark_seen ring (negsuc b) = refl
length-mark_seen ring (pos zero) = refl
length-mark_seen ring (pos (suc b)) = length-mark_bucket ring (suc b)

module _ (fl : Floats) (from_bits : ℕ → fl.F) (step max_ts : ℕ) where
  abbrev State : Type 0
  State = Batch fl from_bits step max_ts

  -- The buckets of the samples that are taken.
  abbrev pub delivered : List Sample → List ℤ
  delivered [] = []
  delivered (smp ∷ smps) =
      if is_refused fl from_bits step max_ts smp
      then delivered smps
      else bucket_of fl from_bits step max_ts smp ∷ delivered smps

  -- What is to be shown of a state, for buckets and a ring that it ends in.
  abbrev Goal : List ℤ → State → List ℕ → Type 0
  Goal bs st ring' = 0 < length st.ring → IsMarked st.ring st.marked → Marks st.ring bs ring'

  -- A sample that is taken, where its bucket is marked or not.
  one_taken :
      (st st' : State) (bk : ℤ) (bs : List ℤ) (ring' : List ℕ) (fresh : Bool)
      → (not (same_ℤ bk st.marked) && is_pos bk) ≡ fresh
      → st'.marked ≡ (if fresh then bk else st.marked)
      → st'.ring ≡ (if fresh then mark_seen st.ring bk else st.ring)
      → Goal bs st' ring'
      → Goal (bk ∷ bs) st ring'
  one_taken st st' bk bs ring' true e m r rest h k = Marks-one st.ring ring' bk bs h (
      subst (λ g. Marks g bs ring') r
        (rest (rw (r, length-mark_seen st.ring bk) h)
          (rw (r, m) (IsMarked-mark_seen st.ring bk h))))
  one_taken st st' bk bs ring' false e m r rest h k =
      Marks-again st.ring ring' bk bs (IsMarked-stale st.ring bk st.marked e k)
        (subst (λ g. Marks g bs ring') r (rest (rw r h) (rw (r, m) k)))

  abbrev buckets_by : Bool → Sample → List Sample → List ℤ
  buckets_by refused smp smps =
      if refused then delivered smps else bucket_of fl from_bits step max_ts smp ∷ delivered smps

  -- The state behind a sample, by whether it is refused.
  abbrev state_by : Bool → Sample → State → State
  state_by refused smp st =
      if refused
      then record st { series = take_undefined fl from_bits step max_ts st.series smp }
      else take_finite fl from_bits step max_ts st smp

  one_sample :
      (smp : Sample) (smps : List Sample) (st : State)
      → ((st' : State)
          → Goal (delivered smps) st' (take_samples fl from_bits step max_ts st' smps).ring)
      → (refused : Bool)
      → Goal
          (buckets_by refused smp smps)
          st
          (take_samples fl from_bits step max_ts (state_by refused smp st) smps).ring
  unfolding take_finite
  one_sample smp smps st rest true h k =
      rest (record st { series = take_undefined fl from_bits step max_ts st.series smp }) h k
  one_sample smp smps st rest false h k =
      let bk = bucket_of fl from_bits step max_ts smp in
      let st' = take_finite fl from_bits step max_ts st smp in
      one_taken st st' bk (delivered smps) _ (not (same_ℤ bk st.marked) && is_pos bk) refl refl refl
        (rest st') h k

  -- The samples of a series mark the buckets of those that are taken, as if each of them was
  -- marked: every slot has the latest bucket that was delivered for it, in this request or before.
  pub take_samples-Marks :
      (smps : List Sample) (st : State)
      → 0 < length st.ring
      → IsMarked st.ring st.marked
      → Marks st.ring (delivered smps) (take_samples fl from_bits step max_ts st smps).ring
  unfolding take_samples take_sample
  take_samples-Marks [] st h k = Marks-skip st.ring
  take_samples-Marks (smp ∷ smps) st h k =
      one_sample smp smps st (take_samples-Marks smps) (is_refused fl from_bits step max_ts smp) h k

  get_or-replicate : (n i : ℕ) → slot (replicate n 0) i ≡ zero
  get_or-replicate zero i = refl
  get_or-replicate (suc n) zero = refl
  get_or-replicate (suc n) (suc i) = get_or-replicate n i

  -- From a ring with no bucket, `seen` answers after the samples of a series for a bucket above 0
  -- whether it is the latest of its slot that one of the samples taken lies in.
  pub seen-take_samples :
      (smps : List Sample) (st : State) (n k : ℕ)
      → st.ring ≡ replicate (suc n) 0
      → st.marked ≡ negsuc 0
      → seen (take_samples fl from_bits step max_ts st smps).ring (pos (suc k))
        ≡ (latest (suc n) (suc k % suc n) (delivered smps) == suc k)
  unfolding seen
  seen-take_samples smps st n k r m =
      ap (λ l. get_or ring' (suc k % l) 0 == suc k) (marks.size ∙ size)
      ∙ ap (λ v. v == suc k) (marks.slots (suc k % suc n))
      ∙ ap (λ v. max v (latest (length st.ring) i (delivered smps)) == suc k)
          (ap (λ g. slot g i) r ∙ get_or-replicate (suc n) i)
      ∙ ap (λ l. max 0 (latest l i (delivered smps)) == suc k) size
      ∙ ap (λ v. v == suc k) (none_before (latest (suc n) i (delivered smps)))
    where
      i : ℕ
      i = suc k % suc n

      none_before : (v : ℕ) → max 0 v ≡ v
      none_before v = omega arith

      ring' : List ℕ
      ring' = (take_samples fl from_bits step max_ts st smps).ring

      size : length st.ring ≡ suc n
      size = ap length r ∙ length-replicate (suc n) 0

      marks : Marks st.ring (delivered smps) ring'
      marks = take_samples-Marks smps st (omega (arith, size)) (rw m tt)
