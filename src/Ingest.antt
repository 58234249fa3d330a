-- ===== src/Ingest.antt =====
-- anomalyd/internal/server/ingest.go, remote write: what the samples of a request do to a series,
-- to the buckets that were seen and to the clock of the metrics. A sample's value is its bits, and
-- `from_bits` is `math.Float64frombits`; its timestamp is the number below 2^64 that stands for the
-- signed one. The entries of `promSeen` are natural numbers, as only positive buckets are stored.
pub mod Seen
pub mod Clock
pub mod Logs
use self_hosted_anomaly_dete.Common.{
  ℕ, zero, suc, ◌+◌, ◌-◌, ◌/◌, ◌%◌, ◌^◌, Bool, true, false, not, ◌&&◌, ◌||◌, none, some, List, [],
  ◌∷◌, ltb, leb, ◌==◌, if◌then◌else◌, length, get_or, set,
}
use mathlib.Core.List.{foldl}
use self_hosted_anomaly_dete.Common.Int.{ℤ, pos, negsuc, ltb_ℤ}
use self_hosted_anomaly_dete.Common.Keys.{nat_eq, list_beq, list_eq, lookup}
use self_hosted_anomaly_dete.Common.Text.{Text, bytes}
use self_hosted_anomaly_dete.Floats.{Floats}
use self_hosted_anomaly_dete.Promrw.{Sample}
use self_hosted_anomaly_dete.Series.{Series, Label, add}
use self_hosted_anomaly_dete.Series.Labels.{get_value}
use self_hosted_anomaly_dete.Detect.{Params, Result, Cache}
use self_hosted_anomaly_dete.Eval.{
  Info, Kind, metric, log_template, log_volume, increases, both, abs_none,
}

-- Go's division of signed numbers, which rounds towards zero.
abbrev pub minus : ℕ → ℤ
minus zero = pos 0
minus (suc n) = negsuc n

abbrev pub quot : ℤ → ℕ → ℤ
quot (pos n) d = pos (n / d)
quot (negsuc n) d = minus (suc n / d)

abbrev pub max_ℤ : ℤ → ℤ → ℤ
max_ℤ a b = if ltb_ℤ a b then b else a

-- The signed number of 64 bits.
unfoldable pub signed : ℕ → ℤ
signed n = if ltb n (2 ^ 63) then pos n else minus (2 ^ 64 - n)

abbrev pub is_pos : ℤ → Bool
is_pos (pos (suc n)) = true
is_pos _ = false

abbrev pub same_ℤ : ℤ → ℤ → Bool
same_ℤ (pos a) (pos b) = a == b
same_ℤ (negsuc a) (negsuc b) = a == b
same_ℤ _ _ = false

abbrev pub stale_nan : ℕ
stale_nan = 0x7ff0000000000002

-- 5 minutes
abbrev pub max_future : ℕ
max_future = 300

abbrev pub name_volume : Text
name_volume = bytes "anomalyd_log_lines"

-- The sum of two `int64`, which wraps: an `int64` is here the number below 2^64 of its bits.
abbrev pub add64 : ℕ → ℕ → ℕ
add64 a b = (a + b) % 2 ^ 64

-- `n > 0`, of an `int64`
abbrev pub is_positive : ℕ → Bool
is_positive n = ltb 0 n && ltb n (2 ^ 63)

unfoldable pub mark_bucket : List ℕ → ℕ → List ℕ
mark_bucket ring b =
    let i = b % length ring in if leb b (get_or ring i 0) then ring else set ring i b

-- `markSeen`, for the buckets above 0 that it is called with.
abbrev pub mark_seen : List ℕ → ℤ → List ℕ
mark_seen ring (pos (suc n)) = mark_bucket ring (suc n)
mark_seen ring _ = ring

unfoldable pub seen : List ℕ → ℤ → Bool
seen ring (pos (suc n)) = get_or ring (suc n % length ring) 0 == suc n
seen ring _ = false

module _ (fl : Floats) where
  open fl use {F, is_nan, is_inf, of_ℕ}

  abbrev pub no_result : Result fl
  no_result = record {
    observed = of_ℕ 0;
    expected = of_ℕ 0;
    score = of_ℕ 0;
    upper = of_ℕ 0;
    lower = of_ℕ 0;
    scale = of_ℕ 0;
    seasonal = false;
  }

  -- The zero value of `seriesInfo`, of a kind.
  unfoldable pub new_info : Kind → Params fl → Info fl
  new_info kind params = record {
    kind = kind;
    dir = both;
    params = params;
    min_vol = of_ℕ 0;
    cache = record { mad_scale = of_ℕ 0; at = pos 0; seasonal = false; valid = false };
    pending = 0;
    normal = 0;
    missing = 0;
    firing = false;
    last = no_result;
    last_b = pos 0;
    last_ok = false;
    last_data = pos 0;
    absent = abs_none;
    written = false;
    absent_run = 0;
    absent_since = pos 0;
    undef_data = pos 0;
  }

  -- `promInfo`, with `AbsFloors` as a map.
  unfoldable pub prom_info : Params fl → List (Text × F) → List Label → Info fl
  prom_info params floors ls =
      let t = get_value ls (bytes "anomaly_type") in
      let params' : Params fl = elim (lookup t floors) [
        | none ↦ params
        | some f ↦ record params { abs_floor = f }
      ] in
      record (new_info metric params') {
        dir =
            if list_beq t (bytes "errors") || list_beq t (bytes "latency") then increases else both;
      }

  -- `logInfo`
  unfoldable pub log_info : Params fl → F → List Label → Info fl
  log_info params min_count ls =
      let l = get_value ls (bytes "level") in
      let is_volume = list_beq (get_value ls (bytes "__name__")) name_volume in
      record (new_info (if is_volume then log_volume else log_template) params) {
        min_vol = min_count;
        dir =
            if is_volume && (list_beq l (bytes "error") || list_beq l (bytes "warn"))
            then increases
            else both;
      }

  module _ (from_bits : ℕ → F) (step max_ts : ℕ) where
    -- The state of the loop over the samples of a series.
    pub record Batch : Type 0 where
      pub series : Series fl (Info fl)
      pub newest : ℤ
      pub marked : ℤ
      pub ring : List ℕ

    abbrev pub second_of : Sample → ℤ
    second_of smp = quot (signed smp.timestamp) 1000

    abbrev pub bucket_of : Sample → ℤ
    bucket_of smp = quot (second_of smp) step

    abbrev pub is_late : Sample → Bool
    is_late smp = ltb_ℤ (pos max_ts) (second_of smp)

    abbrev pub is_refused : Sample → Bool
    is_refused smp = is_nan (from_bits smp.value) || is_inf (from_bits smp.value) || is_late smp

    -- A sample without a value: the series arrives, unless the sample is a staleness marker.
    unfoldable pub take_undefined : Series fl (Info fl) → Sample → Series fl (Info fl)
    take_undefined sr smp =
        let info = sr.info in
        if not (is_late smp) && not (smp.value == stale_nan)
        then record sr { info = record info { undef_data = max_ℤ info.undef_data (bucket_of smp) } }
        else sr

    unfoldable pub take_value : Series fl (Info fl) → Sample → Series fl (Info fl)
    take_value sr smp =
        let sr' = add fl sr (bucket_of smp) (from_bits smp.value) in
        let info = sr'.info in
        record sr' {
          info = record info { last_data = max_ℤ info.last_data (bucket_of smp); written = true };
        }

    unfoldable pub take_finite : Batch → Sample → Batch
    take_finite st smp =
        let bk = bucket_of smp in
        let fresh = not (same_ℤ bk st.marked) && is_pos bk in
        record st {
          series = take_value st.series smp;
          newest = max_ℤ st.newest (second_of smp);
          marked = if fresh then bk else st.marked;
          ring = if fresh then mark_seen st.ring bk else st.ring;
        }

    unfoldable pub take_sample : Batch → Sample → Batch
    take_sample st smp =
        if is_refused smp
        then record st { series = take_undefined st.series smp }
        else take_finite st smp

    -- The loop over `ts.Samples`.
    unfoldable pub take_samples : Batch → List Sample → Batch
    take_samples st smps = foldl take_sample st smps

-- The loop at the end of the handler: the clock does not go back.
unfoldable pub advance_clock : ℤ → ℤ → ℤ
advance_clock clock newest = if ltb_ℤ clock newest then newest else clock
