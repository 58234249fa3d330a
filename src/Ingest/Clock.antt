-- ===== src/Ingest/Clock.antt =====
-- ingest.go: the clock of the metrics, over the samples that a request brings.
use self_hosted_anomaly_dete.Common.{
  ℕ, ◌≡◌, Bool, true, false, ◌||◌, List, [], ◌∷◌, arith, if_cases,
}
use self_hosted_anomaly_dete.Common.Int.{ℤ, pos, ltb_ℤ, ◌≤ℤ◌}
use self_hosted_anomaly_dete.Floats.{Floats}
use self_hosted_anomaly_dete.Promrw.{Sample}
use self_hosted_anomaly_dete.Ingest.{
  Batch, take_finite, take_sample, take_samples, advance_clock, max_ℤ, is_refused, second_of,
  is_late,
}

max_ℤ-le : (a b c : ℤ) → a ≤ℤ c → b ≤ℤ c → max_ℤ a b ≤ℤ c
max_ℤ-le a b c h k = if_cases (λ (m : ℤ). m ≤ℤ c) (ltb_ℤ a b) (λ e. k) (λ e. h)

or_false : (a b c : Bool) → (a || b || c) ≡ false → c ≡ false
or_false a b c h = ground arith

in_time : (max_ts : ℕ) (sec : ℤ) → ltb_ℤ (pos max_ts) sec ≡ false → sec ≤ℤ pos max_ts
in_time max_ts sec h = ground arith

later : (a b : ℤ) → ltb_ℤ a b ≡ true → a ≤ℤ b
later a b h = ground arith

module _ (fl : Floats) (from_bits : ℕ → fl.F) (step max_ts : ℕ) where
  take_sample-newest :
      (st : Batch fl from_bits step max_ts) (smp : Sample)
      → st.newest ≤ℤ pos max_ts
      → (take_sample fl from_bits step max_ts st smp).newest ≤ℤ pos max_ts
  unfolding take_sample take_finite
  take_sample-newest st smp h =
      if_cases (λ (st' : Batch fl from_bits step max_ts). st'.newest ≤ℤ pos max_ts)
        (is_refused fl from_bits step max_ts smp) (λ refused. h)
        (λ taken. max_ℤ-le st.newest sec (pos max_ts) h (
          in_time max_ts sec (
            or_false (fl.is_nan (from_bits smp.value)) (fl.is_inf (from_bits smp.value))
              (is_late fl from_bits step max_ts smp) taken)))
    where
      sec : ℤ
      sec = second_of fl from_bits step max_ts smp

  take_samples-newest :
      (smps : List Sample) (st : Batch fl from_bits step max_ts)
      → st.newest ≤ℤ pos max_ts
      → (take_samples fl from_bits step max_ts st smps).newest ≤ℤ pos max_ts
  unfolding take_samples
  take_samples-newest [] st h = h
  take_samples-newest (smp ∷ smps) st h =
      take_samples-newest smps (take_sample fl from_bits step max_ts st smp)
        (take_sample-newest st smp h)

  -- Whatever the samples of a request are dated, the clock does not go back, and with a clock that
  -- is not beyond `maxTS` it is not beyond it afterwards.
  pub clock-bounds :
      (st : Batch fl from_bits step max_ts) (smps : List Sample) (clock : ℤ)
      → st.newest ≤ℤ pos max_ts
      → clock ≤ℤ pos max_ts
      → (clock ≤ℤ advance_clock clock (take_samples fl from_bits step max_ts st smps).newest)
        × (advance_clock clock (take_samples fl from_bits step max_ts st smps).newest ≤ℤ pos max_ts)
  unfolding advance_clock
  clock-bounds st smps clock h k =
      let n = (take_samples fl from_bits step max_ts st smps).newest in
      (
        if_cases (λ (c : ℤ). clock ≤ℤ c) (ltb_ℤ clock n) (λ e. later clock n e) (λ e. omega arith),
        if_cases (λ (c : ℤ). c ≤ℤ pos max_ts) (ltb_ℤ clock n) (λ e. take_samples-newest smps st h)
            (λ e. k),
      )
