-- ===== src/Tests/Wire.antt =====
-- promrw.go at concrete requests.
use self_hosted_anomaly_dete.Common.{ℕ, ◌+◌, ◌≡◌, Bool, ltb, ◌++◌, List, [], ◌∷◌, All, arith}
use self_hosted_anomaly_dete.Promrw.{
  TimeSeries, decode, ok, append_uvarint, uvarint_bytes, le_bytes,
}
use self_hosted_anomaly_dete.Promrw.Encode.{
  encode_body, series_bytes, encode_label, encode_sample, sample_bytes, append_bytes,
}
use self_hosted_anomaly_dete.Promrw.Total.{IsDefinite}
use self_hosted_anomaly_dete.Promrw.Calls.{collect, decode-IsDefinite}
use self_hosted_anomaly_dete.Promrw.RoundTrip.{
  FitsSeries, decode-encode_body, call_each, decode-call_each,
}

-- up{job=a} with one sample
abbrev request : List TimeSeries
request =
    record {
      labels = record { name = b'n' ∷ []; value = b'u' ∷ [] } ∷ [];
      samples = record { value = 5; timestamp = 300 } ∷ [];
    }
    ∷ []

request-Fits : All FitsSeries request
unfolding series_bytes encode_label encode_sample sample_bytes append_bytes append_uvarint
    uvarint_bytes le_bytes
request-Fits = (
  record {
    labels = ((omega arith, omega arith, omega arith), tt);
    samples = ((omega arith, omega arith), tt);
    total = omega arith;
  },
  tt,
)

decode-encode_body_example : decode collect (encode_body request) [] ≡ (request, ok tt)
decode-encode_body_example = decode-encode_body request request-Fits

-- A field that ends in the middle of its length.
decode-IsDefinite_example : IsDefinite (decode collect (10 ∷ 200 ∷ []) []).1
decode-IsDefinite_example = decode-IsDefinite collect (10 ∷ 200 ∷ []) []

-- A callback that accepts one series and refuses the next.
abbrev only_one : TimeSeries → ℕ → ℕ × Bool
only_one ts n = (n + 1, ltb n 1)

decode-call_each_example :
    decode only_one (encode_body (request ++ request)) 0 ≡ call_each only_one (request ++ request) 0
decode-call_each_example =
    decode-call_each only_one (request ++ request) 0 (request-Fits.0, request-Fits)
