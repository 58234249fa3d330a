-- ===== src/Promrw.antt =====
-- anomalyd/internal/promrw/promrw.go: the reader and the writer of Prometheus remote-write
-- requests. A byte slice is a list of numbers below 256. A `float64` and an `int64` are carried as
-- their 64-bit patterns, which is all that this package does with them. `uvarint` and
-- `append_uvarint` are `encoding/binary`'s; snappy is a parameter.
pub mod Encode
pub mod Uvarint
pub mod Total
pub mod Calls
pub mod Walk
pub mod Fields
pub mod RoundTrip
use self_hosted_anomaly_dete.Common.{
  ℕ, zero, suc, ◌+◌, ◌-◌, ◌*◌, ◌/◌, ◌%◌, ◌^◌, Bool, true, false, ◌&&◌, Option, none, some, List, [],
  ◌∷◌, ◌++◌, ltb, ◌==◌, if◌then◌else◌, length, take, drop,
}
use mathlib.Core.List.{foldl}

abbrev pub Bytes : Type 0
Bytes = List ℕ

abbrev pub u64_mod : ℕ
u64_mod = 2 ^ 64

-- `errTrunc`, the error of `skip`, and that of the callback. `out_of_fuel` is no Go value.
pub data Error : Type 0 where
  truncated : Error
  unsupported : ℕ → Error
  callback : Error
  out_of_fuel : Error

pub data Result {ℓ} (A : Type ℓ) : Type ℓ where
  ok : A → Result A
  err : Error → Result A

infixl 5 ◌>>=◌
abbrev pub ◌>>=◌ {ℓ κ} : {A : Type ℓ} {B : Type κ} → Result A → (A → Result B) → Result B
ok a >>= f = f a
err e >>= f = err e

pub record Label : Type 0 where
  pub name : Bytes
  pub value : Bytes

pub record Sample : Type 0 where
  pub value : ℕ
  pub timestamp : ℕ

pub record TimeSeries : Type 0 where
  pub labels : List Label
  pub samples : List Sample

abbrev pub no_label : Label
no_label = record { name = []; value = [] }

abbrev pub no_sample : Sample
no_sample = record { value = 0; timestamp = 0 }

abbrev pub no_series : TimeSeries
no_series = record { labels = []; samples = [] }

-- `binary.Uvarint` from byte `i` on: the value and the bytes that follow, or `none` where its
-- second result is not positive (the input ends, or the number passes 64 bits).
unfoldable pub uvarint_from : ℕ → Bytes → Option (ℕ × Bytes)
uvarint_from i [] = none
uvarint_from i (b ∷ bs) =
    let more = uvarint_from (i + 1) bs in
    if i == 10
    then none
    else if ltb b 128
    then (if (i == 9) && ltb 1 b then none else some (b, bs))
    else elim more [ none ↦ none | some (v, rest) ↦ some (b - 128 + 128 * v, rest) ]

unfoldable pub uvarint : Bytes → Option (ℕ × Bytes)
uvarint buf = uvarint_from 0 buf

-- `binary.AppendUvarint` on a uint64: `k + 1` groups at most.
unfoldable pub uvarint_bytes : ℕ → ℕ → Bytes
uvarint_bytes zero v = v ∷ []
uvarint_bytes (suc k) v =
    let more = uvarint_bytes k (v / 128) in if ltb v 128 then v ∷ [] else (v % 128 + 128) ∷ more

unfoldable pub append_uvarint : Bytes → ℕ → Bytes
append_uvarint dst v = dst ++ uvarint_bytes 9 v

-- `binary.LittleEndian`
abbrev pub le_value : Bytes → ℕ
le_value [] = 0
le_value (b ∷ bs) = b + 256 * le_value bs

unfoldable pub le_bytes : ℕ → ℕ → Bytes
le_bytes zero v = []
le_bytes (suc k) v = (v % 256) ∷ le_bytes k (v / 256)

-- The field number, the wire type and what follows.
unfoldable pub tag : Bytes → Result (ℕ × ℕ × Bytes)
tag buf = elim (uvarint buf) [ none ↦ err truncated | some (v, rest) ↦ ok (v / 8, v % 8, rest) ]

unfoldable pub bytes_field : Bytes → Result (Bytes × Bytes)
bytes_field buf = elim (uvarint buf) [
  | none ↦ err truncated
  | some (l, rest) ↦ if ltb (length rest) l then err truncated else ok (take l rest, drop l rest)
]

skip_varint : Bytes → Result Bytes
skip_varint buf = elim (uvarint buf) [ none ↦ err truncated | some (v, rest) ↦ ok rest ]

abbrev skip_fixed : ℕ → Bytes → Result Bytes
skip_fixed k buf = if ltb (length buf) k then err truncated else ok (drop k buf)

abbrev skip_bytes : Bytes → Result Bytes
skip_bytes buf = bytes_field buf >>= λ p. ok p.1

unfoldable pub skip : Bytes → ℕ → Result Bytes
unfolding skip_varint
skip buf wt =
    if wt == 0
    then skip_varint buf
    else if wt == 1
    then skip_fixed 8 buf
    else if wt == 2
    then skip_bytes buf
    else if wt == 5
    then skip_fixed 4 buf
    else err (unsupported wt)

-- `for len(buf) > 0 { … }`: `field` is the body of the loop on the field at the front.
unfoldable pub walk {ℓ} : {S : Type ℓ} → (S → Bytes → Result (S × Bytes)) → ℕ → Bytes → S → Result S
walk field fuel [] s = ok s
walk field zero (b ∷ bs) s = err out_of_fuel
walk field (suc fuel) (b ∷ bs) s = field s (b ∷ bs) >>= λ p. walk field fuel p.1 p.0

abbrev set_label : ℕ → Bytes → Label → Label
set_label field v l =
    if field == 1 then record l { name = v } else if field == 2 then record l { value = v } else l

unfoldable pub label_field : Label → Bytes → Result (Label × Bytes)
label_field l buf = do
  (field, wt, buf) ← tag buf
  if wt == 2
      then (do (v, rest) ← bytes_field buf; ok (set_label field v l, rest))
      else (do rest ← skip buf wt; ok (l, rest))

unfoldable pub decode_label : Bytes → Label → Result Label
decode_label buf l = walk label_field (length buf) buf l

abbrev value_field : Sample → Bytes → Result (Sample × Bytes)
value_field s buf =
    if ltb (length buf) 8
    then err truncated
    else ok (record s { value = le_value (take 8 buf) }, drop 8 buf)

abbrev timestamp_field : Sample → Bytes → Result (Sample × Bytes)
timestamp_field s buf = elim (uvarint buf) [
  | none ↦ err truncated
  | some (v, rest) ↦ ok (record s { timestamp = v }, rest)
]

unfoldable pub sample_field : Sample → Bytes → Result (Sample × Bytes)
sample_field s buf = do
  (field, wt, buf) ← tag buf
  if (field == 1) && (wt == 1)
      then value_field s buf
      else if (field == 2) && (wt == 0)
      then timestamp_field s buf
      else (do rest ← skip buf wt; ok (s, rest))

unfoldable pub decode_sample : Bytes → Sample → Result Sample
decode_sample buf s = walk sample_field (length buf) buf s

-- The `switch field` of `decodeSeries`; other fields are read past.
unfoldable pub series_message : ℕ → Bytes → TimeSeries → Result TimeSeries
series_message field msg ts =
    if field == 1
    then (do l ← decode_label msg no_label; ok (record ts { labels = ts.labels ++ (l ∷ []) }))
    else if field == 2
    then (do s ← decode_sample msg no_sample; ok (record ts { samples = ts.samples ++ (s ∷ []) }))
    else ok ts

unfoldable pub series_field : TimeSeries → Bytes → Result (TimeSeries × Bytes)
series_field ts buf = do
  (field, wt, buf) ← tag buf
  if wt == 2
      then (do (msg, rest) ← bytes_field buf; ts ← series_message field msg ts; ok (ts, rest))
      else (do rest ← skip buf wt; ok (ts, rest))

-- `ts` is emptied first, so what it held before does not matter.
unfoldable pub decode_series : Bytes → Result TimeSeries
decode_series buf = walk series_field (length buf) buf no_series

-- One field of a request: a series, or something to read past.
unfoldable pub request_field : Bytes → Result (Option TimeSeries × Bytes)
request_field buf = do
  (field, wt, buf) ← tag buf
  if (field == 1) && (wt == 2)
      then (do (msg, rest) ← bytes_field buf; ts ← decode_series msg; ok (some ts, rest))
      else (do rest ← skip buf wt; ok (none, rest))

-- The callback `fn` changes the caller's state, and answers whether it went well. What it did for
-- the series before an error stays done.
module _ {ℓ} {S : Type ℓ} (fn : TimeSeries → S → S × Bool) where
  -- What the loop does with a field; `again` is the rest of the loop.
  unfoldable pub after_field :
      (Bytes → S → S × Result (Unit {0}))
      → S
      → Result (Option TimeSeries × Bytes)
      → S × Result (Unit {0})
  after_field again s (err e) = (s, err e)
  after_field again s (ok (none, rest)) = again rest s
  after_field again s (ok (some ts, rest)) =
      let (s', went_well) = fn ts s in
      elim went_well [ true ↦ again rest s' | false ↦ (s', err callback) ]

  unfoldable pub decode_loop : ℕ → Bytes → S → S × Result (Unit {0})
  decode_loop fuel [] s = (s, ok tt)
  decode_loop zero (b ∷ bs) s = (s, err out_of_fuel)
  decode_loop (suc fuel) (b ∷ bs) s = after_field (decode_loop fuel) s (request_field (b ∷ bs))

  -- Every field takes a byte at least, so the length is enough fuel.
  unfoldable pub decode : Bytes → S → S × Result (Unit {0})
  decode buf s = decode_loop (length buf) buf s

-- How `Decompress` fails.
pub data Refused : Type 0 where
  bad_header : Refused
  too_large : ℕ → Refused
  corrupt : Refused

pub data Unpacked : Type 0 where
  unpacked : Bytes → Unpacked
  refused : Refused → Unpacked

-- `dst` only lends its memory.
module _ (decoded_len : Bytes → Option ℕ) (snappy_decode : Bytes → Option Bytes) where
  unfoldable pub decompress : Bytes → ℕ → Unpacked
  decompress body limit = elim (decoded_len body) [
    | none ↦ refused bad_header
    | some n ↦
        if ltb limit n
        then refused (too_large n)
        else elim (snappy_decode body) [ none ↦ refused corrupt | some out ↦ unpacked out ]
  ]
