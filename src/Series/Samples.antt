-- ===== src/Series/Samples.antt =====
-- store.go: what `Add` does to what `At` answers.
use self_hosted_anomaly_dete.Common.{
  ℕ, ◌+◌, ◌%◌, ◌<◌, ◌≡◌, ◌≢◌, sym, ap, ◌∙◌, max, some, arith, leb, ◌==◌, if◌then◌else◌, length,
  get_or, set, length-set, get_or-set_self, get_or-set_ne, set-get_or_self,
}
use native.Mathlib.Decide.{dec_lt}
use native.Mathlib.Nat.{mod-lt}
use self_hosted_anomaly_dete.Floats.{Floats}
use self_hosted_anomaly_dete.Series.{Series, mean, sum, late_win, u32_mod, at_bucket, add_late}
use self_hosted_anomaly_dete.Series.Ring.{mod-ne}
use self_hosted_anomaly_dete.Series.Window.{IsValid, at_bucket_lem}

module _ (fl : Floats) {Info : Type 0} where
  open fl use {F, F32, nan, narrow, widen, nan32, is_nan32, is_nan, of_ℕ, ◌+F◌, ◌*F◌, ◌/F◌, add32}

  -- The value that a late sample leaves in its bucket.
  abbrev pub late_value : Series fl Info → ℕ → ℕ → F → F32
  late_value s h b v =
      let old = get_or s.vals (b % length s.vals) nan32 in
      let k = max (get_or s.late (b % late_win) 0) 1 in
      if is_nan32 old then narrow v else elim s.agg [
        | sum ↦ add32 old (narrow v)
        | mean ↦
            if leb h (b + late_win)
            then narrow (◌/F◌ (◌+F◌ (◌*F◌ (widen old) (of_ℕ k)) v) (◌+F◌ (of_ℕ k) (of_ℕ 1)))
            else old
      ]

  vals-add_late :
      (s : Series fl Info) (h b : ℕ) (v : F)
      → (add_late fl s h b v).vals ≡ set s.vals (b % length s.vals) (late_value s h b v)
  unfolding add_late
  vals-add_late s h b v = ground (arith, set-get_or_self s.vals (b % length s.vals) nan32)

  pub length-add_late :
      (s : Series fl Info) (h b : ℕ) (v : F) → length (add_late fl s h b v).vals ≡ length s.vals
  length-add_late s h b v =
      ap length (vals-add_late s h b v) ∙ length-set s.vals (b % length s.vals) (late_value s h b v)

  pub head-add_late : (s : Series fl Info) (h b : ℕ) (v : F) → (add_late fl s h b v).head ≡ s.head
  unfolding add_late
  head-add_late s h b v = ground arith

  pub length-late-add_late :
      (s : Series fl Info) (h b : ℕ) (v : F) → length (add_late fl s h b v).late ≡ length s.late
  unfolding add_late
  length-late-add_late s h b v = ground (
    arith,
    length-set s.late (b % late_win) 1,
    length-set s.late (b % late_win) ((max (get_or s.late (b % late_win) 0) 1 + 1) % u32_mod),
  )

  -- A late sample, for a closed bucket that the ring of a valid series still holds, changes what
  -- `At` answers for its bucket to `late_value`, and what it answers for no other.
  pub at_bucket-add_late :
      (s : Series fl Info) (h b : ℕ) (v : F) (y : ℕ)
      → IsValid s
      → s.head ≡ some h
      → b < h
      → h < b + length s.vals
      → at_bucket fl (add_late fl s h b v) y
        ≡ (if y == b then widen (late_value s h b v) else at_bucket fl s y)
  at_bucket-add_late s h b v y valid e hb hn = ground (
    arith,
    at_bucket_lem fl s h y e,
    at_bucket_lem fl (add_late fl s h b v) h y (head-add_late s h b v ∙ e),
    ap (λ n. get_or (add_late fl s h b v).vals (y % n) nan32) (length-add_late s h b v),
    length-add_late s h b v,
    ap (λ l. get_or l (y % length s.vals) nan32) (vals-add_late s h b v),
    here,
    other,
  )
    where
      i : ℕ
      i = b % length s.vals

      here :
          y ≡ b
          → get_or (set s.vals i (late_value s h b v)) (y % length s.vals) nan32
            ≡ late_value s h b v
      here q = rw q (get_or-set_self s.vals i (late_value s h b v) nan32 (mod-lt b valid.room))

      other :
          (y ≡ b → ⊥)
          → y < h
          → h < y + length s.vals
          → get_or (set s.vals i (late_value s h b v)) (y % length s.vals) nan32
            ≡ get_or s.vals (y % length s.vals) nan32
      other q hy hny = get_or-set_ne s.vals (late_value s h b v) nan32 (apart q hy hny)
        where
          apart :
              (y ≡ b → ⊥) → y < h → h < y + length s.vals → b % length s.vals ≢ y % length s.vals
          apart q hy hny = elim (dec_lt b y) [
            | yes p ↦ mod-ne b y (length s.vals) p (omega arith)
            | no p ↦ λ r. mod-ne y b (length s.vals) (omega arith) (omega arith) (sym r)
          ]
