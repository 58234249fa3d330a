-- ===== src/Gen.antt =====
-- anomalyd/internal/gen/gen.go: the labels of a series, and the batches of `RemoteWrite`. The
-- values of the metrics are a parameter, since they are made of sines; times are in seconds and not
-- negative, and the step is not 0.
pub mod Batches
use self_hosted_anomaly_dete.Common.{
  ℕ, zero, suc, ◌+◌, ◌-◌, ◌*◌, ◌/◌, ◌%◌, ◌^◌, min, Bool, Option, none, some, List, [], ◌∷◌, ◌++◌,
  ltb, length, if◌then◌else◌,
}
use self_hosted_anomaly_dete.Common.Text.{Text, bytes}

-- `Metric`
pub record Metric : Type 0 where
  pub name : Text
  pub raw : Text
  pub type_label : Text
  pub anomaly_name : Text
  pub strategy : Text

-- `Metrics`
abbrev pub metrics : List Metric
metrics =
    record {
      name = bytes "anomaly:svc:requests:rate1m";
      raw = bytes "synthetic_requests_rate";
      type_label = bytes "requests";
      anomaly_name = bytes "svc_requests";
      strategy = bytes "adaptive";
    }
    ∷ record {
      name = bytes "anomaly:svc:errors:ratio1m";
      raw = bytes "synthetic_error_ratio";
      type_label = bytes "errors";
      anomaly_name = bytes "svc_error_ratio";
      strategy = bytes "robust";
    }
    ∷ []

-- `m.labels(svc)`
abbrev pub labels : Metric → Text → List (Text × Text)
labels m svc =
    (bytes "__name__", m.name)
    ∷ (bytes "anomaly_name", m.anomaly_name)
    ∷ (bytes "anomaly_strategy", m.strategy)
    ∷ (bytes "anomaly_type", m.type_label)
    ∷ (bytes "service", svc)
    ∷ []

-- 6 hours
abbrev pub chunk : ℕ
chunk = 21600

-- The loop over the times of a series, `t`, `t + st`, … before `end`, on fuel.
unfoldable pub times_from : ℕ → ℕ → ℕ → ℕ → List ℕ
times_from zero st t end = []
times_from (suc fuel) st t end =
    let rest = times_from fuel st (t + st) end in if ltb t end then t ∷ rest else []

abbrev pub times : ℕ → ℕ → ℕ → List ℕ
times st t end = times_from (end - t) st t end

module _ {F : Type 0} (value : Metric → Text → ℕ → F) where
  pub record Sample : Type 0 where
    pub value_of : F
    pub timestamp : ℕ

  pub record Series : Type 0 where
    pub label_list : List (Text × Text)
    pub samples : List Sample

  unfoldable pub samples_at : Metric → Text → List ℕ → List Sample
  samples_at m svc [] = []
  samples_at m svc (t ∷ ts) =
      record { value_of = value m svc t; timestamp = t * 1000 } ∷ samples_at m svc ts

  unfoldable pub series_of : Metric → List Text → List ℕ → List Series
  series_of m [] ts = []
  series_of m (svc ∷ svcs) ts =
      record { label_list = labels m svc; samples = samples_at m svc ts } ∷ series_of m svcs ts

  -- The batch of a chunk, with the times that it holds.
  unfoldable pub batch : List Metric → List Text → List ℕ → List Series
  batch [] svcs ts = []
  batch (m ∷ ms) svcs ts = series_of m svcs ts ++ batch ms svcs ts

  -- The loop over the chunks, on fuel: what is posted while every post succeeds.
  unfoldable pub batches_from : ℕ → List Text → ℕ → ℕ → ℕ → List (List Series)
  batches_from zero svcs st start to = []
  batches_from (suc fuel) svcs st start to =
      let rest = batches_from fuel svcs st (start + chunk) to in
      if ltb start to
      then batch metrics svcs (times st start (min (start + chunk) to)) ∷ rest
      else []

  -- `RemoteWrite`, of the series of the services: `from` is rounded down to a step.
  abbrev pub remote_write : List Text → ℕ → ℕ → ℕ → List (List Series)
  remote_write svcs st from to =
      let start = from / st * st in batches_from (to - start) svcs st start to
