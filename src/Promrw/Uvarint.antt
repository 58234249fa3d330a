-- ===== src/Promrw/Uvarint.antt =====
-- promrw.go: the numbers and the length-prefixed fields that the reader is built from.
use self_hosted_anomaly_dete.Common.{
  ℕ, zero, suc, ◌+◌, ◌*◌, ◌/◌, ◌^◌, ◌<◌, ◌≡◌, refl, ap, some, [], ◌∷◌, ◌++◌, arith, length,
  length-append, length-drop, Option-cases, inl, inr, take-append_length, drop-append_length,
}
use mathlib.Core.List.{append_assoc}
use self_hosted_anomaly_dete.Promrw.{
  Bytes, ok, uvarint_from, uvarint, uvarint_bytes, append_uvarint, le_value, le_bytes, tag,
  bytes_field,
}
use self_hosted_anomaly_dete.Promrw.Encode.{append_bytes}

-- A number takes one byte at least from the front.
uvarint_from_takes :
    (bs : Bytes) (i v : ℕ) (rest : Bytes)
    → uvarint_from i bs ≡ some (v, rest)
    → length rest < length bs
unfolding uvarint_from
uvarint_from_takes [] i v rest e = absurd (ground arith)
uvarint_from_takes (b ∷ bs) i v rest e = elim (Option-cases (uvarint_from (i + 1) bs)) [
  | inl n ↦ ground arith
  | inr ((w, r), q) ↦ ground (arith, uvarint_from_takes bs (i + 1) w r q)
]

uvarint_from-bytes :
    (k i v : ℕ) (rest : Bytes)
    → i + k ≡ 9
    → v < 2 * 128 ^ k
    → uvarint_from i (uvarint_bytes k v ++ rest) ≡ some (v, rest)
unfolding uvarint_from uvarint_bytes
uvarint_from-bytes zero i v rest hi hv = ground arith
uvarint_from-bytes (suc k) i v rest hi hv =
    ground (arith, uvarint_from-bytes k (i + 1) (v / 128) rest)

pub uvarint_takes :
    (bs : Bytes) (v : ℕ) (rest : Bytes) → uvarint bs ≡ some (v, rest) → length rest < length bs
unfolding uvarint
uvarint_takes bs v rest e = uvarint_from_takes bs 0 v rest e

-- A uint64 is read back, and what follows it is left.
pub uvarint-append_uvarint :
    (v : ℕ) (rest : Bytes) → v < 2 ^ 64 → uvarint (append_uvarint [] v ++ rest) ≡ some (v, rest)
unfolding uvarint append_uvarint
uvarint-append_uvarint v rest h = uvarint_from-bytes 9 0 v rest refl (omega arith)

pub append_uvarint_lem : (dst : Bytes) (v : ℕ) → append_uvarint dst v ≡ dst ++ append_uvarint [] v
unfolding append_uvarint
append_uvarint_lem dst v = refl

pub length-le_bytes : (k v : ℕ) → length (le_bytes k v) ≡ k
unfolding le_bytes
length-le_bytes zero v = refl
length-le_bytes (suc k) v = ap suc (length-le_bytes k (v / 256))

pub le_value-bytes : (k v : ℕ) → v < 256 ^ k → le_value (le_bytes k v) ≡ v
unfolding le_bytes
le_value-bytes zero v h = omega arith
le_value-bytes (suc k) v h = omega (arith, le_value-bytes k (v / 256) (omega arith))

pub tag_takes :
    (bs : Bytes) (field wt : ℕ) (rest : Bytes)
    → tag bs ≡ ok (field, wt, rest)
    → length rest < length bs
unfolding tag
tag_takes bs field wt rest e = elim (Option-cases (uvarint bs)) [
  | inl n ↦ ground arith
  | inr ((w, r), q) ↦ ground (arith, uvarint_takes bs w r q)
]

pub bytes_field_takes :
    (bs msg rest : Bytes) → bytes_field bs ≡ ok (msg, rest) → length rest < length bs
unfolding bytes_field
bytes_field_takes bs msg rest e = elim (Option-cases (uvarint bs)) [
  | inl n ↦ ground arith
  | inr ((w, r), q) ↦ ground (arith, uvarint_takes bs w r q, length-drop w r)
]

-- A key is read back as its field number and wire type.
pub tag-append_uvarint :
    (field wt : ℕ) (rest : Bytes)
    → wt < 8
    → field < 2 ^ 61
    → tag (append_uvarint [] (field * 8 + wt) ++ rest) ≡ ok (field, wt, rest)
unfolding tag
tag-append_uvarint field wt rest hw hf =
    ground (arith, uvarint-append_uvarint (field * 8 + wt) rest)

-- A length-prefixed field is read back.
pub bytes_field-append_uvarint :
    (v rest : Bytes)
    → length v < 2 ^ 64
    → bytes_field (append_uvarint [] (length v) ++ (v ++ rest)) ≡ ok (v, rest)
unfolding bytes_field
bytes_field-append_uvarint v rest h = ground (
  arith,
  uvarint-append_uvarint (length v) (v ++ rest),
  take-append_length v rest,
  drop-append_length v rest,
  length-append v rest,
)

pub append_bytes_lem :
    (dst : Bytes) (field : ℕ) (v : Bytes)
    → append_bytes dst field v ≡ dst ++ append_bytes [] field v
unfolding append_bytes append_uvarint
append_bytes_lem dst field v = simp append_assoc

-- What `append_bytes` writes starts with its key, its length and its bytes.
pub append_bytes_parts :
    (field : ℕ) (v rest : Bytes)
    → append_bytes [] field v ++ rest
      ≡ append_uvarint [] (field * 8 + 2) ++ (append_uvarint [] (length v) ++ (v ++ rest))
unfolding append_bytes append_uvarint
append_bytes_parts field v rest = simp append_assoc
