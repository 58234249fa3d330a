-- ===== src/Series/Window.antt =====
-- store.go: the ring refines a window of buckets. What `At` answers after `Advance`.
use self_hosted_anomaly_dete.Common.{
  ℕ, ◌+◌, ◌-◌, ◌%◌, ◌<◌, ◌≡◌, refl, ap, ◌∙◌, min, max, ◌&&◌, some, arith, ltb, ◌==◌, if◌then◌else◌,
  length, get_or, set, length-set,
}
use self_hosted_anomaly_dete.Floats.{Floats}
use self_hosted_anomaly_dete.Series.{Series, late_win, at_bucket, final, gap, close_until}
use self_hosted_anomaly_dete.Series.Ring.{length-fill, get_or-fill-set}

-- The ring has room for the open bucket, and the counts of `late` have their places.
pub record IsValid {fl : Floats} {Info : Type 0} (s : Series fl Info) : Type 0 where
  pub room : 0 < length s.vals
  pub lates : length s.late ≡ late_win

module _ (fl : Floats) {Info : Type 0} where
  open fl use {nan, narrow, widen, nan32}

  -- The ring keeps its size.
  pub length-close_until :
      (s : Series fl Info) (h b : ℕ) → length (close_until fl s h b).vals ≡ length s.vals
  unfolding close_until
  length-close_until s h b =
      length-fill (length s.vals) (gap fl s) (min (b - (h + 1)) (length s.vals)) (h + 1)
        (set s.vals (h % length s.vals) (narrow (final fl s)))
      ∙ length-set s.vals (h % length s.vals) (narrow (final fl s))

  pub close_until-IsValid :
      (s : Series fl Info) (h b : ℕ) → IsValid s → IsValid (close_until fl s h b)
  unfolding close_until
  close_until-IsValid s h b v = record {
    room = rw (length-close_until s h b) v.room;
    lates =
        length-fill late_win 0 (b - max (h + 1) (b - late_win)) (max (h + 1) (b - late_win))
          (set s.late (h % late_win) s.cnt)
        ∙ length-set s.late (h % late_win) s.cnt
        ∙ v.lates;
  }

  -- What a place of the ring holds after the buckets from `h` to `b - 1` are closed.
  pub close_until_place :
      (s : Series fl Info) (h b y : ℕ)
      → IsValid s
      → h < b
      → y < b
      → b < y + length s.vals
      → get_or (close_until fl s h b).vals (y % length s.vals) nan32 ≡ (
          if y == h
          then narrow (final fl s)
          else if ltb y h
          then get_or s.vals (y % length s.vals) nan32
          else gap fl s)
  unfolding close_until
  close_until_place s h b y v hb hy hn =
      get_or-fill-set (length s.vals) (gap fl s) nan32 v.room s.vals (narrow (final fl s)) h b y
        refl hb hy hn

  -- `At`, at a known head.
  pub at_bucket_lem :
      (s : Series fl Info) (h y : ℕ)
      → s.head ≡ some h
      → at_bucket fl s y ≡ (
          if ltb y h && ltb h (y + length s.vals)
          then widen (get_or s.vals (y % length s.vals) nan32)
          else nan)
  unfolding at_bucket
  at_bucket_lem s h y e = rw e (ground arith)

  pub head-close_until : (s : Series fl Info) (h b : ℕ) → (close_until fl s h b).head ≡ some b
  unfolding close_until
  head-close_until s h b = refl

  -- After `Advance` of a valid series from its head `h` to a later `b`, `At` answers: for a bucket
  -- that is `b` or later, or a ring or more before `b`, NaN; for `h`, the final value of the open
  -- bucket; for an earlier one, what it answered before; for one between `h` and `b`, the gap.
  pub at_bucket-close_until :
      (s : Series fl Info) (h b y : ℕ)
      → IsValid s
      → s.head ≡ some h
      → h < b
      → at_bucket fl (close_until fl s h b) y ≡ (
          if ltb y b && ltb b (y + length s.vals)
          then (if y == h
              then widen (narrow (final fl s))
              else if ltb y h
              then at_bucket fl s y
              else widen (gap fl s))
          else nan)
  at_bucket-close_until s h b y v e hb = ground (
    arith,
    at_bucket_lem s h y e,
    at_bucket_lem (close_until fl s h b) b y (head-close_until s h b),
    ap (λ n. get_or (close_until fl s h b).vals (y % n) nan32) (length-close_until s h b),
    length-close_until s h b,
    close_until_place s h b y v hb,
  )
