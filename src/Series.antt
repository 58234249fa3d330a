-- ===== src/Series.antt =====
-- anomalyd/internal/series/store.go, `Series`: a ring of bucket values with one open bucket.
-- A bucket number is an integer; a head is a bucket number that was added, so a natural number
-- (`none` is `noHead`). Bucket numbers are seconds over a step, far from the ends of an int64, so
-- their sums are not wrapped; the 32-bit sample counts are.
pub mod Ring
pub mod Window
pub mod Samples
pub mod Late
pub mod Step
pub mod Labels
use self_hosted_anomaly_dete.Common.{
  ℕ, zero, suc, ◌+◌, ◌-◌, ◌%◌, ◌^◌, min, max, Bool, ◌&&◌, ◌||◌, Option, none, some, List, ltb, leb,
  ◌==◌, if◌then◌else◌, length, get_or, set, replicate,
}
use self_hosted_anomaly_dete.Common.Int.{ℤ, pos, negsuc}
use self_hosted_anomaly_dete.Floats.{Floats}

pub data Agg : Type 0 where
  mean sum : Agg

pub record Label : Type 0 where
  pub name : List ℕ
  pub value : List ℕ

abbrev pub late_win : ℕ
late_win = 8

abbrev pub u32_mod : ℕ
u32_mod = 2 ^ 32

-- `Info` is the type of the owner's settings.
pub record Series (fl : Floats) (Info : Type 0) : Type 0 where
  pub key : List ℕ
  pub labels : List Label
  pub agg : Agg
  pub last_eval : Option ℤ
  pub info : Info
  pub vals : List fl.F32
  pub head : Option ℕ
  pub acc : fl.F
  pub cnt : ℕ
  pub late : List ℕ

-- `for x := start; …; x++ { l[x%m] = v }`, `count` times.
unfoldable pub fill {ℓ} : {A : Type ℓ} → ℕ → A → ℕ → ℕ → List A → List A
fill m v zero start l = l
fill m v (suc count) start l = fill m v count (start + 1) (set l (start % m) v)

module _ (fl : Floats) {Info : Type 0} where
  open fl use {F, F32, nan, of_ℕ, ◌+F◌, ◌*F◌, ◌/F◌, narrow, widen, nan32, is_nan32, add32}

  unfoldable pub new_series : List ℕ → List Label → Agg → ℕ → Info → Series fl Info
  new_series key labels agg capacity info = record {
    key = key;
    labels = labels;
    agg = agg;
    last_eval = none;
    info = info;
    vals = replicate capacity nan32;
    head = none;
    acc = of_ℕ 0;
    cnt = 0;
    late = replicate late_win 0;
  }

  unfoldable pub at_bucket : Series fl Info → ℕ → F
  at_bucket s b = elim s.head [
    | none ↦ nan
    | some h ↦
        if leb h b || leb (b + length s.vals) h
        then nan
        else widen (get_or s.vals (b % length s.vals) nan32)
  ]

  unfoldable pub at : Series fl Info → ℤ → F
  at s (negsuc b) = nan
  at s (pos b) = at_bucket s b

  unfoldable pub final : Series fl Info → F
  final s = elim s.agg [ sum ↦ s.acc | mean ↦ if s.cnt == 0 then nan else ◌/F◌ s.acc (of_ℕ s.cnt) ]

  unfoldable pub gap : Series fl Info → F32
  gap s = elim s.agg [ sum ↦ narrow (of_ℕ 0) | mean ↦ nan32 ]

  -- `Advance` from the head `h` to a later bucket. Where `b-lateWin` would be negative, `h+1` is
  -- the larger bound.
  unfoldable pub close_until : Series fl Info → ℕ → ℕ → Series fl Info
  close_until s h b =
      let n = length s.vals in
      let from = max (h + 1) (b - late_win) in
      record s {
        vals = fill n (gap s) (min (b - (h + 1)) n) (h + 1) (set s.vals (h % n) (narrow (final s)));
        late = fill late_win 0 (b - from) from (set s.late (h % late_win) s.cnt);
        head = some b;
        acc = of_ℕ 0;
        cnt = 0;
      }

  unfoldable pub advance_bucket : Series fl Info → ℕ → Series fl Info
  advance_bucket s b = elim s.head [ none ↦ s | some h ↦ if leb b h then s else close_until s h b ]

  unfoldable pub advance : Series fl Info → ℤ → Series fl Info
  advance s (negsuc b) = s
  advance s (pos b) = advance_bucket s b

  -- The inner `switch` of `Add`: a late sample for the closed bucket `b` of a ring with head `h`.
  unfoldable pub add_late : Series fl Info → ℕ → ℕ → F → Series fl Info
  add_late s h b v =
      let i = b % length s.vals in
      let old = get_or s.vals i nan32 in
      let recent = leb h (b + late_win) in
      let k = max (get_or s.late (b % late_win) 0) 1 in
      if is_nan32 old
      then record s {
        vals = set s.vals i (narrow v);
        late = if recent then set s.late (b % late_win) 1 else s.late;
      }
      else elim s.agg [
        | sum ↦ record s { vals = set s.vals i (add32 old (narrow v)) }
        | mean ↦
            if recent
            then record s {
              vals =
                  set s.vals i
                    (narrow (◌/F◌ (◌+F◌ (◌*F◌ (widen old) (of_ℕ k)) v) (◌+F◌ (of_ℕ k) (of_ℕ 1))));
              late = set s.late (b % late_win) ((k + 1) % u32_mod);
            }
            else s
      ]

  -- The cases of `Add` at the head `h`.
  unfoldable pub add_at : Series fl Info → ℕ → ℕ → F → Series fl Info
  add_at s h b v =
      if b == h
      then record s { acc = ◌+F◌ s.acc v; cnt = (s.cnt + 1) % u32_mod }
      else if ltb h b
      then record (advance_bucket s b) { acc = v; cnt = 1 }
      else if ltb h (b + length s.vals)
      then add_late s h b v
      else s

  unfoldable pub add_bucket : Series fl Info → ℕ → F → Series fl Info
  unfolding add_at
  add_bucket s b v = elim s.head [
    | none ↦ record s { head = some b; acc = v; cnt = 1 }
    | some h ↦ add_at s h b v
  ]

  unfoldable pub add : Series fl Info → ℤ → F → Series fl Info
  add s (negsuc b) v = s
  add s (pos b) v = add_bucket s b v
