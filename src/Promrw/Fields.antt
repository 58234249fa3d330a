-- ===== src/Promrw/Fields.antt =====
-- promrw.go: the fields of a series, on what `Encode` writes for them.
use self_hosted_anomaly_dete.Common.{
  ℕ, ◌+◌, ◌*◌, ◌^◌, ◌<◌, ◌≡◌, sym, ap, ◌∙◌, List, [], ◌∷◌, ◌++◌, arith, length, length-append,
}
use mathlib.Core.List.{foldl, append_assoc, append-nil}
use self_hosted_anomaly_dete.Promrw.{
  Bytes, ok, Label, Sample, TimeSeries, no_label, no_sample, label_field, decode_label,
  sample_field, decode_sample, series_message, series_field, append_uvarint, le_bytes, tag,
  uvarint_bytes, set_label,
}
use self_hosted_anomaly_dete.Promrw.Encode.{
  append_bytes, encode_label, sample_bytes, encode_sample, series_bytes,
}
use self_hosted_anomaly_dete.Promrw.Uvarint.{
  tag-append_uvarint, bytes_field-append_uvarint, append_bytes_lem, append_bytes_parts,
  uvarint-append_uvarint, le_value-bytes, length-le_bytes,
}
use self_hosted_anomaly_dete.Promrw.Walk.{
  take_8, length-uvarint_bytes, walk_two, drop_8, append_bytes_positive, foldl-parts,
  uvarint_longer, append_bytes_longer, parts,
}

-- A message that was written is read back by the key and the length before it.
pub tag-append_bytes :
    (field : ℕ) (v rest : Bytes)
    → field < 2 ^ 61
    → tag (append_bytes [] field v ++ rest)
      ≡ ok (field, 2, append_uvarint [] (length v) ++ (v ++ rest))
tag-append_bytes field v rest h =
    rw (append_bytes_parts field v rest) (tag-append_uvarint field 2 _ (omega arith) h)

label_field-append_bytes :
    (field : ℕ) (l : Label) (v rest : Bytes)
    → field < 2 ^ 61
    → length v < 2 ^ 64
    → label_field l (append_bytes [] field v ++ rest) ≡ ok (set_label field v l, rest)
unfolding label_field
label_field-append_bytes field l v rest hf hv =
    rw (tag-append_bytes field v rest hf, bytes_field-append_uvarint v rest hv)

abbrev label_body : Label → Bytes
label_body l = append_bytes [] 1 l.name ++ append_bytes [] 2 l.value

abbrev pub Fits : Bytes → Type 0
Fits v = length v < 2 ^ 64

abbrev pub FitsLabel : Label → Type 0
FitsLabel l = Fits l.name × Fits l.value × Fits (label_body l)

decode_label-body : (l : Label) → FitsLabel l → decode_label (label_body l) no_label ≡ ok l
unfolding decode_label
decode_label-body l h =
    let named : Label = record no_label { name = l.name } in
    let rest : Bytes = append_bytes [] 2 l.value in
    let e : label_field no_label (label_body l) ≡ ok (named, rest) =
      label_field-append_bytes 1 no_label l.name rest (omega arith) h.0 in
    let e' : label_field named rest ≡ ok (l, []) =
      rw (append-nil) at (label_field-append_bytes 2 named l.value [] (omega arith) h.1) in
    walk_two label_field (label_body l) rest no_label named l
      (omega (arith, append_bytes_longer 1 l.name rest))
      (rw append-nil at (append_bytes_positive 2 l.value)) e e'

abbrev pub FitsSample : Sample → Type 0
FitsSample s = (s.value < 2 ^ 64) × (s.timestamp < 2 ^ 64)

sample_parts :
    (s : Sample) (rest : Bytes)
    → sample_bytes s ++ rest
      ≡ append_uvarint [] (1 * 8 + 1)
        ++ (le_bytes 8 s.value
            ++ (append_uvarint [] (2 * 8 + 0) ++ (append_uvarint [] s.timestamp ++ rest)))
unfolding sample_bytes append_uvarint
sample_parts s rest = simp append_assoc

sample_field-value :
    (s : Sample) (v : ℕ) (rest : Bytes)
    → v < 2 ^ 64
    → sample_field s (append_uvarint [] (1 * 8 + 1) ++ (le_bytes 8 v ++ rest))
      ≡ ok (record s { value = v }, rest)
unfolding sample_field
sample_field-value s v rest h =
    rw (tag-append_uvarint 1 1 (le_bytes 8 v ++ rest) (omega arith) (omega arith)) (
      ground (
        arith,
        length-append (le_bytes 8 v) rest,
        length-le_bytes 8 v,
        le_value-bytes 8 v,
        take_8 v rest,
        drop_8 v rest,
      ))

sample_field-timestamp :
    (s : Sample) (v : ℕ) (rest : Bytes)
    → v < 2 ^ 64
    → sample_field s (append_uvarint [] (2 * 8 + 0) ++ (append_uvarint [] v ++ rest))
      ≡ ok (record s { timestamp = v }, rest)
unfolding sample_field
sample_field-timestamp s v rest h =
    rw (tag-append_uvarint 2 0 (append_uvarint [] v ++ rest) (omega arith) (omega arith))
      (ground (arith, uvarint-append_uvarint v rest))

decode_sample-bytes : (s : Sample) → FitsSample s → decode_sample (sample_bytes s) no_sample ≡ ok s
unfolding decode_sample
decode_sample-bytes s h =
    let valued : Sample = record no_sample { value = s.value } in
    let key : Bytes = append_uvarint [] (2 * 8 + 0) in
    let stamp : Bytes = append_uvarint [] s.timestamp ++ [] in
    let rest : Bytes = key ++ stamp in
    let whole : sample_bytes s ≡ append_uvarint [] (1 * 8 + 1) ++ (le_bytes 8 s.value ++ rest) =
      sym (append-nil (sample_bytes s)) ∙ sample_parts s [] in
    rw whole (
      walk_two sample_field (append_uvarint [] (1 * 8 + 1) ++ (le_bytes 8 s.value ++ rest)) rest
        no_sample valued s
        (omega (
          arith,
          uvarint_longer (1 * 8 + 1) (le_bytes 8 s.value ++ rest),
          length-append (le_bytes 8 s.value) rest,
        ))
        (omega (arith, uvarint_longer (2 * 8 + 0) stamp))
        (sample_field-value no_sample s.value rest h.0)
        (sample_field-timestamp valued s.timestamp [] h.1))

abbrev pub label_part : Label → Bytes
label_part l = append_bytes [] 1 (label_body l)

abbrev pub sample_part : Sample → Bytes
sample_part s = append_bytes [] 2 (sample_bytes s)

abbrev pub add_label : TimeSeries → Label → TimeSeries
add_label ts l = record ts { labels = ts.labels ++ (l ∷ []) }

abbrev pub add_sample : TimeSeries → Sample → TimeSeries
add_sample ts s = record ts { samples = ts.samples ++ (s ∷ []) }

encode_label_lem : (b : Bytes) (l : Label) → encode_label b l ≡ b ++ label_part l
unfolding encode_label
encode_label_lem b l =
    append_bytes_lem b 1 _ ∙ ap (λ v. b ++ append_bytes [] 1 v) (append_bytes_lem _ 2 l.value)

encode_sample_lem : (b : Bytes) (s : Sample) → encode_sample b s ≡ b ++ sample_part s
unfolding encode_sample
encode_sample_lem b s = append_bytes_lem b 2 _

pub series_bytes-parts :
    (ts : TimeSeries) → series_bytes ts ≡ parts label_part ts.labels ++ parts sample_part ts.samples
unfolding series_bytes
series_bytes-parts ts =
    foldl-parts sample_part encode_sample encode_sample_lem (foldl encode_label [] ts.labels)
      ts.samples
    ∙ ap (λ b. b ++ parts sample_part ts.samples)
        (foldl-parts label_part encode_label encode_label_lem [] ts.labels)

pub series_field-label :
    (ts : TimeSeries) (l : Label) (rest : Bytes)
    → FitsLabel l
    → series_field ts (label_part l ++ rest) ≡ ok (add_label ts l, rest)
unfolding series_field series_message
series_field-label ts l rest h = rw (
  tag-append_bytes 1 (label_body l) rest (omega arith),
  bytes_field-append_uvarint (label_body l) rest h.2,
  decode_label-body l h,
)

length-sample_bytes : (s : Sample) → FitsSample s → Fits (sample_bytes s)
unfolding sample_bytes append_uvarint
length-sample_bytes s h = omega (
  arith,
  length-append (uvarint_bytes 9 (1 * 8 + 1) ++ le_bytes 8 s.value ++ uvarint_bytes 9 (2 * 8 + 0))
      (uvarint_bytes 9 s.timestamp),
  length-append (uvarint_bytes 9 (1 * 8 + 1) ++ le_bytes 8 s.value) (uvarint_bytes 9 (2 * 8 + 0)),
  length-append (uvarint_bytes 9 (1 * 8 + 1)) (le_bytes 8 s.value),
  length-uvarint_bytes 9 (1 * 8 + 1),
  length-uvarint_bytes 9 (2 * 8 + 0),
  length-uvarint_bytes 9 s.timestamp,
  length-le_bytes 8 s.value,
)

pub series_field-sample :
    (ts : TimeSeries) (s : Sample) (rest : Bytes)
    → FitsSample s
    → series_field ts (sample_part s ++ rest) ≡ ok (add_sample ts s, rest)
unfolding series_field series_message
series_field-sample ts s rest h = rw (
  tag-append_bytes 2 (sample_bytes s) rest (omega arith),
  bytes_field-append_uvarint (sample_bytes s) rest (length-sample_bytes s h),
  decode_sample-bytes s h,
)

pub foldl-add_label :
    (ls : List Label) (ts : TimeSeries)
    → foldl add_label ts ls ≡ record ts { labels = ts.labels ++ ls }
foldl-add_label [] ts = rw append-nil
foldl-add_label (l ∷ ls) ts = foldl-add_label ls (add_label ts l) ∙ rw append_assoc

pub foldl-add_sample :
    (ss : List Sample) (ts : TimeSeries)
    → foldl add_sample ts ss ≡ record ts { samples = ts.samples ++ ss }
foldl-add_sample [] ts = rw append-nil
foldl-add_sample (l ∷ ls) ts = foldl-add_sample ls (add_sample ts l) ∙ rw append_assoc

pub label_part_longer : (l : Label) (rest : Bytes) → length rest < length (label_part l ++ rest)
label_part_longer l rest = omega (arith, append_bytes_longer 1 (label_body l) rest)

pub sample_part_longer : (s : Sample) (rest : Bytes) → length rest < length (sample_part s ++ rest)
sample_part_longer s rest = omega (arith, append_bytes_longer 2 (sample_bytes s) rest)
