-- ===== src/Promrw/Encode.antt =====
-- anomalyd/internal/promrw/promrw.go: `Encoder`.
use self_hosted_anomaly_dete.Common.{ℕ, ◌+◌, ◌*◌, List, [], ◌++◌, length}
use mathlib.Core.List.{foldl}
use self_hosted_anomaly_dete.Promrw.{Bytes, Label, Sample, TimeSeries, append_uvarint, le_bytes}

-- `appendBytes`
unfoldable pub append_bytes : Bytes → ℕ → Bytes → Bytes
append_bytes dst field v = append_uvarint (append_uvarint dst (field * 8 + 2)) (length v) ++ v

-- The bodies of the loops of `Encode`.
unfoldable pub encode_label : Bytes → Label → Bytes
encode_label tmp l = append_bytes tmp 1 (append_bytes (append_bytes [] 1 l.name) 2 l.value)

unfoldable pub sample_bytes : Sample → Bytes
sample_bytes s =
    append_uvarint
      (append_uvarint (append_uvarint [] (1 * 8 + 1) ++ le_bytes 8 s.value) (2 * 8 + 0)) s.timestamp

unfoldable pub encode_sample : Bytes → Sample → Bytes
encode_sample tmp s = append_bytes tmp 2 (sample_bytes s)

unfoldable pub series_bytes : TimeSeries → Bytes
series_bytes s = foldl encode_sample (foldl encode_label [] s.labels) s.samples

-- The request before it is compressed.
unfoldable pub encode_body : List TimeSeries → Bytes
encode_body = foldl (λ buf s. append_bytes buf 1 (series_bytes s)) []

-- snappy is not part of the repository: its functions are parameters.
module _ (snappy_encode : Bytes → Bytes) where
  unfoldable pub encode : List TimeSeries → Bytes
  encode series = snappy_encode (encode_body series)
