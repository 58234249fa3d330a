-- ===== src/Findings/Agree.antt =====
-- eval.go: `apply` against the state of the series, over a round of `evalSeries`.
use self_hosted_anomaly_dete.Common.Keys.{nat_eq, list_eq}
use self_hosted_anomaly_dete.Floats.{Floats}
use self_hosted_anomaly_dete.Findings.Steps.{Steps}
