-- ===== src/Gen/Batches.antt =====
-- gen.go: the batches of `RemoteWrite` hold every time once.
use self_hosted_anomaly_dete.Common.{
  ℕ, zero, suc, ◌+◌, ◌-◌, ◌*◌, ◌/◌, ◌≤◌, ◌<◌, ◌≡◌, refl, sym, ap, ap₂, map, ◌∙◌, min, Bool, true,
  false, List, [], ◌∷◌, ◌++◌, ltb, arith, if◌then◌else◌, if_cases, if_true, if_false, lt→ltb,
}
use native.Mathlib.Decide.{dec_lt}
use native.Mathlib.Nat.{zero-mul, suc-mul}
use self_hosted_anomaly_dete.Common.Text.{Text}
use self_hosted_anomaly_dete.Gen.{
  Metric, metrics, chunk, times_from, times, batch, batches_from, remote_write,
}

module _ (st : ℕ) (some_step : 0 < st) where
  -- Enough fuel is enough.
  times_from-enough :
      (f g t end : ℕ) → end ≤ t + f → end ≤ t + g → times_from f st t end ≡ times_from g st t end
  unfolding times_from
  times_from-enough zero zero t end h k = refl
  times_from-enough zero (suc g) t end h k = sym (if_false (ltb t end) _ _ (ground (arith, h)))
  times_from-enough (suc f) zero t end h k = if_false (ltb t end) _ _ (ground (arith, k))
  times_from-enough (suc f) (suc g) t end h k =
      ap (λ r. if ltb t end then t ∷ r else [])
        (times_from-enough f g (t + st) end (omega (arith, h, some_step))
          (omega (arith, k, some_step)))

  times_first : (t end : ℕ) → t < end → times st t end ≡ t ∷ times st (t + st) end
  unfolding times_from
  times_first t end h = go (end - t) refl
    where
      go : (f : ℕ) → end - t ≡ f → times_from f st t end ≡ t ∷ times st (t + st) end
      go zero e = absurd (omega (arith, e, h))
      go (suc f) e =
          if_true (ltb t end) _ _ (lt→ltb t end h)
          ∙ ap (λ r. t ∷ r)
              (times_from-enough f (end - (t + st)) (t + st) end (omega (arith, e, some_step))
                (omega arith))

  times_none : (t end : ℕ) → end ≤ t → times st t end ≡ []
  unfolding times_from
  times_none t end h = times_from-enough (end - t) 0 t end (omega arith) (omega (arith, h))

  -- The times up to one of them and those from it on.
  times-append :
      (n t end : ℕ)
      → t + n * st ≤ end
      → times st t end ≡ times st t (t + n * st) ++ times st (t + n * st) end
  times-append zero t end h =
      let same : t + 0 * st ≡ t = omega (arith, zero-mul st) in
      rw same (ap (λ r. r ++ times st t end) (sym (times_none t t (omega arith))))
  times-append (suc n) t end h =
      let same : t + suc n * st ≡ t + st + n * st = omega (arith, suc-mul n st) in
      times_first t end (omega (arith, h, same, some_step))
      ∙ ap (λ r. t ∷ r) (times-append n (t + st) end (omega (arith, h, same)))
      ∙ ap (λ k. t ∷ (times st (t + st) k ++ times st k end)) (sym same)
      ∙ ap (λ r. r ++ times st (t + suc n * st) end)
          (sym (times_first t (t + suc n * st) (omega (arith, same, some_step))))

abbrev pub flatten : List (List ℕ) → List ℕ
flatten [] = []
flatten (ts ∷ tss) = ts ++ flatten tss

append_nothing : (ts : List ℕ) → ts ++ [] ≡ ts
append_nothing [] = refl
append_nothing (t ∷ ts) = ap (λ r. t ∷ r) (append_nothing ts)

-- The times of the chunks.
chunks : ℕ → ℕ → ℕ → ℕ → List (List ℕ)
chunks zero st start to = []
chunks (suc fuel) st start to =
    let rest = chunks fuel st (start + chunk) to in
    if ltb start to then times st start (min (start + chunk) to) ∷ rest else []

module _ (st : ℕ) (some_step : 0 < st) (n : ℕ) (divides : n * st ≡ chunk) where
  first_chunk :
      (start to : ℕ)
      → times st start (min (start + chunk) to) ++ times st (start + chunk) to ≡ times st start to
  first_chunk start to = elim (dec_lt to (start + chunk)) [
    | yes p ↦
        let least : min (start + chunk) to ≡ to = omega (arith, p) in
        ap₂ (λ k r. times st start k ++ r) least
          (times_none st some_step (start + chunk) to (omega (arith, p)))
        ∙ append_nothing (times st start to)
    | no p ↦
        let least : min (start + chunk) to ≡ start + n * st = omega (arith, p, divides) in
        let next : start + chunk ≡ start + n * st = omega (arith, divides) in
        ap₂ (λ k j. times st start k ++ times st j to) least next
        ∙ sym (times-append st some_step n start to (omega (arith, p, divides)))
  ]

  flatten-chunks :
      (fuel start to : ℕ)
      → to ≤ start + fuel
      → flatten (chunks fuel st start to) ≡ times st start to
  unfolding chunks
  flatten-chunks zero start to h = sym (times_none st some_step start to (omega (arith, h)))
  flatten-chunks (suc fuel) start to h =
      let rest = flatten-chunks fuel (start + chunk) to (omega (arith, h)) in
      if_cases (λ tss. flatten tss ≡ times st start to) (ltb start to)
        (λ y. ap (λ r. times st start (min (start + chunk) to) ++ r) rest ∙ first_chunk start to)
        (λ y. sym (times_none st some_step start to (ground (arith, y))))

module _ {F : Type 0} (value : Metric → Text → ℕ → F) (svcs : List Text) where
  batches_from-chunks :
      (fuel st start to : ℕ)
      → batches_from value fuel svcs st start to
        ≡ map (batch value metrics svcs) (chunks fuel st start to)
  unfolding chunks batches_from
  batches_from-chunks zero st start to = refl
  batches_from-chunks (suc fuel) st start to =
      go (batches_from-chunks fuel st (start + chunk) to) (ltb start to)
    where
      go :
          batches_from value fuel svcs st (start + chunk) to
            ≡ map (batch value metrics svcs) (chunks fuel st (start + chunk) to)
          → (b : Bool)
          → (if b
              then batch value metrics svcs (times st start (min (start + chunk) to))
                ∷ batches_from value fuel svcs st (start + chunk) to
              else [])
            ≡ map (batch value metrics svcs) (
                if b
                then times st start (min (start + chunk) to) ∷ chunks fuel st (start + chunk) to
                else [])
      go rest true =
          ap (λ r. batch value metrics svcs (times st start (min (start + chunk) to)) ∷ r) rest
      go rest false = refl

  -- Where the step divides 6 hours, the batches that are posted while every post succeeds hold each
  -- time from `from`, rounded down to a step, up to `to`, in steps, once and in order, for every
  -- metric of every service.
  pub remote_write-times :
      (st n from to : ℕ)
      → 0 < st
      → n * st ≡ chunk
      → (tss : List (List ℕ)) × (remote_write value svcs st from to
          ≡ map (batch value metrics svcs) tss)
        × (flatten tss ≡ times st (from / st * st) to)
  remote_write-times st n from to some_step divides =
      let start = from / st * st in
      (
        chunks (to - start) st start to,
        batches_from-chunks (to - start) st start to,
        flatten-chunks st some_step n divides (to - start) start to (omega arith),
      )
