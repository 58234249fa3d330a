-- ===== src/Series/Late.antt =====
-- store.go: a sample that comes after its bucket was closed, against one that came in time.
use self_hosted_anomaly_dete.Common.{
  ℕ, ◌+◌, ◌-◌, ◌%◌, ◌≤◌, ◌<◌, ◌≡◌, refl, ap, ◌∙◌, max, false, some, arith, ◌==◌, if◌then◌else◌,
  length, get_or, set, length-set, get_or-set_self,
}
use native.Mathlib.Nat.{mod-lt}
use self_hosted_anomaly_dete.Floats.{Floats}
use self_hosted_anomaly_dete.Series.{
  Series, mean, sum, late_win, u32_mod, at_bucket, final, gap, close_until, advance_bucket,
  add_late, add_bucket,
}
use self_hosted_anomaly_dete.Series.Ring.{get_or-fill}
use self_hosted_anomaly_dete.Series.Window.{
  IsValid, close_until-IsValid, close_until_place, length-close_until, head-close_until,
  at_bucket-close_until,
}
use self_hosted_anomaly_dete.Series.Samples.{late_value, at_bucket-add_late}

module _ (fl : Floats) {Info : Type 0} (s : Series fl Info) (h b : ℕ) (v : fl.F) (valid : IsValid s)
    (e : s.head ≡ some h) (later : h < b) (kept : b < h + length s.vals) where
  open fl use {F, F32, nan, narrow, widen, nan32, is_nan32, is_nan, of_ℕ, ◌+F◌, ◌*F◌, ◌/F◌, add32}

  -- The series whose open bucket got the sample.
  abbrev in_time : Series fl Info
  in_time = record s { acc = ◌+F◌ s.acc v; cnt = (s.cnt + 1) % u32_mod }

  add_in_time : add_bucket fl s h v ≡ in_time
  unfolding add_bucket
  add_in_time = rw e (ground arith)

  advance_open : advance_bucket fl s b ≡ close_until fl s h b
  unfolding advance_bucket
  advance_open = rw e (ground arith)

  advance_in_time : advance_bucket fl in_time b ≡ close_until fl in_time h b
  unfolding advance_bucket
  advance_in_time = rw e (ground arith)

  abbrev closed : Series fl Info
  closed = close_until fl s h b

  add_closed : add_bucket fl closed h v ≡ add_late fl closed b h v
  unfolding add_bucket
  add_closed = rw (head-close_until fl s h b) (ground (arith, length-close_until fl s h b))

  old_value : get_or closed.vals (h % length closed.vals) nan32 ≡ narrow (final fl s)
  old_value = rw (length-close_until fl s h b) (ground (arith, close_until_place fl s h b h valid))

  old_count : b ≤ h + 8 → get_or closed.late (h % late_win) 0 ≡ s.cnt
  unfolding close_until
  old_count near =
      let from : max (h + 1) (b - 8) ≡ h + 1 = omega arith in
      rw from (
        ground (
          arith,
          get_or-fill 8 0 0 (omega arith) (b - (h + 1)) (h + 1) (set s.late (h % 8) s.cnt) h
              (length-set s.late (h % 8) s.cnt ∙ valid.lates),
          get_or-set_self s.late (h % 8) s.cnt 0 (rw valid.lates (mod-lt h {m = 8} (omega arith))),
        ))

  agg-closed : closed.agg ≡ s.agg
  unfolding close_until
  agg-closed = refl

  -- The late sample, in what `At` answers.
  late_answer :
      (y : ℕ)
      → at_bucket fl (add_bucket fl (advance_bucket fl s b) h v) y
        ≡ (if y == h then widen (late_value fl closed b h v) else at_bucket fl closed y)
  late_answer y =
      ap (λ t. at_bucket fl (add_bucket fl t h v) y) advance_open
      ∙ ap (λ t. at_bucket fl t y) add_closed
      ∙ at_bucket-add_late fl closed b h v y (close_until-IsValid fl s h b valid)
          (head-close_until fl s h b) later (rw (length-close_until fl s h b) kept)

  in_time_answer :
      (y : ℕ)
      → at_bucket fl (advance_bucket fl (add_bucket fl s h v) b) y
        ≡ at_bucket fl (close_until fl in_time h b) y
  in_time_answer y =
      ap (λ t. at_bucket fl (advance_bucket fl t b) y) add_in_time
      ∙ ap (λ t. at_bucket fl t y) advance_in_time

  in_time-IsValid : IsValid in_time
  in_time-IsValid = record { room = valid.room; lates = valid.lates }

  same_before : (y : ℕ) → at_bucket fl in_time y ≡ at_bucket fl s y
  unfolding at_bucket
  same_before y = refl

  same_gap : gap fl in_time ≡ gap fl s
  unfolding gap
  same_gap = refl

  -- Both answers, once the values of the bucket `h` agree.
  answers_agree :
      late_value fl closed b h v ≡ narrow (final fl in_time)
      → (y : ℕ)
      → at_bucket fl (add_bucket fl (advance_bucket fl s b) h v) y
        ≡ at_bucket fl (advance_bucket fl (add_bucket fl s h v) b) y
  answers_agree same y = ground (
    arith,
    late_answer y,
    in_time_answer y,
    at_bucket-close_until fl s h b y valid e later,
    at_bucket-close_until fl in_time h b y in_time-IsValid e later,
    same_before y,
    same_gap,
    ap widen same,
  )

  open_sum : s.agg ≡ sum → final fl s ≡ s.acc
  unfolding final
  open_sum is_sum = ground arith

  in_time_sum : s.agg ≡ sum → final fl in_time ≡ ◌+F◌ s.acc v
  unfolding final
  in_time_sum is_sum = ground arith

  in_time_mean :
      s.agg ≡ mean → s.cnt + 1 < u32_mod → final fl in_time ≡ ◌/F◌ (◌+F◌ s.acc v) (of_ℕ (s.cnt + 1))
  unfolding final
  in_time_mean is_mean few =
      let e : (s.cnt + 1) % u32_mod ≡ s.cnt + 1 = omega arith in rw e (ground arith)

  -- For a mean, where the arithmetic at this bucket is exact: a sample for the bucket `h`, which
  -- holds one sample at least, that comes after `Advance` closed `h` no more than `lateWin` buckets
  -- ago gives every bucket the value that it has when the sample comes first.
  pub late_mean :
      s.agg ≡ mean
      → 0 < s.cnt
      → s.cnt + 1 < u32_mod
      → b ≤ h + late_win
      → is_nan32 (narrow (final fl s)) ≡ false
      → widen (narrow (final fl s)) ≡ final fl s
      → ◌*F◌ (final fl s) (of_ℕ s.cnt) ≡ s.acc
      → ◌+F◌ (of_ℕ s.cnt) (of_ℕ 1) ≡ of_ℕ (s.cnt + 1)
      → (y : ℕ)
      → at_bucket fl (add_bucket fl (advance_bucket fl s b) h v) y
        ≡ at_bucket fl (advance_bucket fl (add_bucket fl s h v) b) y
  late_mean is_mean some_sample few near number exact whole next = answers_agree value
    where
      value : late_value fl closed b h v ≡ narrow (final fl in_time)
      value = ground (arith, old_value, agg-closed, old_count near, in_time_mean)

  -- For a sum, where the 32-bit addition is exact on the open bucket's sum and the sample, and that
  -- sum is a number: a sample for the bucket `h` that comes after `Advance` closed `h`, while the
  -- ring still holds it, gives every bucket the value that it has when the sample comes first.
  pub late_sum :
      s.agg ≡ sum
      → is_nan32 (narrow s.acc) ≡ false
      → add32 (narrow s.acc) (narrow v) ≡ narrow (◌+F◌ s.acc v)
      → (y : ℕ)
      → at_bucket fl (add_bucket fl (advance_bucket fl s b) h v) y
        ≡ at_bucket fl (advance_bucket fl (add_bucket fl s h v) b) y
  late_sum is_sum number exact = answers_agree value
    where
      value : late_value fl closed b h v ≡ narrow (final fl in_time)
      value = ground (arith, old_value, agg-closed, open_sum, in_time_sum)
