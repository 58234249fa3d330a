-- ===== src/Logparse.antt =====
-- anomalyd/internal/logparse/logparse.go, `Extractor`: string values at dotted paths of one JSON
-- object. A position in the line is the text from there on. `encoding/json`'s decoding of a string
-- with escapes is the parameter `unquote`. `out_of_fuel` is no Go value.
pub mod Total
pub mod Fields
pub mod Levels
pub mod Infer
pub mod Container
use self_hosted_anomaly_dete.Common.{
  ℕ, zero, suc, ◌+◌, ◌-◌, Bool, true, false, ◌&&◌, ◌||◌, Option, none, some, List, [], ◌∷◌, ◌++◌,
  map, ltb, ◌==◌, if◌then◌else◌, length, take,
}
use self_hosted_anomaly_dete.Common.Keys.{nat_eq, list_beq}
use self_hosted_anomaly_dete.Common.Text.{Text, cut_prefix}

pub data Parsed {ℓ} (A : Type ℓ) : Type ℓ where
  parsed : A → Parsed A
  malformed : Parsed A
  out_of_fuel : Parsed A

infixl 5 ◌>>=◌
abbrev pub ◌>>=◌ {ℓ κ} : {A : Type ℓ} {B : Type κ} → Parsed A → (A → Parsed B) → Parsed B
parsed a >>= f = f a
malformed >>= f = malformed
out_of_fuel >>= f = out_of_fuel

abbrev pub is_ws : ℕ → Bool
is_ws c = c == 32 || c == 9 || c == 10 || c == 13

unfoldable pub skip_ws : Text → Text
skip_ws [] = []
skip_ws (c ∷ s) = if is_ws c then skip_ws s else c ∷ s

-- `str` behind the quote: what stands before the closing quote, whether it has an escape, and what
-- follows the quote.
unfoldable pub scan : Text → Parsed (Text × Bool × Text)
scan [] = malformed
scan (c ∷ []) = if c == b'"' then parsed ([], false, []) else malformed
scan (c ∷ d ∷ s) =
    let escaped = scan s >>= λ r. parsed (c ∷ d ∷ r.0, true, r.2) in
    let plain = scan (d ∷ s) >>= λ r. parsed (c ∷ r.0, r.1, r.2) in
    if c == b'\\' then escaped else if c == b'"' then parsed ([], false, d ∷ s) else plain

-- The values of the paths, by `set`: every path that is the current one.
unfoldable pub set_value : List Text → Text → Text → List Text → List Text
set_value [] path v out = out
set_value (p ∷ paths) path v [] = []
set_value (p ∷ paths) path v (o ∷ out) =
    (if list_beq p path then v else o) ∷ set_value paths path v out

-- `descend`: some path goes on below the current one.
unfoldable pub descend : List Text → Text → Bool
descend [] path = false
descend (p ∷ paths) path = elim (cut_prefix path p) [
  | some (c ∷ rest) ↦ c == b'.' || descend paths path
  | some [] ↦ descend paths path
  | none ↦ descend paths path
]

abbrev pub extend : Text → Text → Text
extend [] key = key
extend (c ∷ path) key = (c ∷ path) ++ (b'.' ∷ key)

module _ (unquote : Text → Option Text) where
  abbrev pub content : Text × Bool × Text → Parsed (Text × Text)
  content (raw, false, rest) = parsed (raw, rest)
  content (raw, true, rest) = elim (unquote raw) [ none ↦ malformed | some v ↦ parsed (v, rest) ]

  -- `str`
  unfoldable pub str : Text → Parsed (Text × Text)
  str [] = malformed
  str (c ∷ s) = if c == b'"' then scan s >>= content else malformed

  -- `skipValue` at a depth.
  unfoldable pub skip_value : ℕ → ℕ → Text → Parsed Text
  skip_value fuel zero [] = parsed []
  skip_value fuel (suc depth) [] = malformed
  skip_value zero depth (c ∷ s) = out_of_fuel
  skip_value (suc fuel) zero (c ∷ s) =
      let text = str (c ∷ s) >>= λ r. parsed r.1 in
      let inner = skip_value fuel 1 s in
      let more = skip_value fuel 0 s in
      if c == b'"'
      then text
      else if c == b'{' || c == b'['
      then inner
      else if c == b'}' || c == b']' || c == b',' || is_ws c
      then parsed (c ∷ s)
      else more
  skip_value (suc fuel) (suc depth) (c ∷ s) =
      let text = str (c ∷ s) >>= λ r. skip_value fuel (suc depth) r.1 in
      let inner = skip_value fuel (suc (suc depth)) s in
      let outer = skip_value fuel depth s in
      let more = skip_value fuel (suc depth) s in
      if c == b'"'
      then text
      else if c == b'{' || c == b'['
      then inner
      else if c == b'}' || c == b']'
      then (if depth == 0 then parsed s else outer)
      else more

  module _ (paths : List Text) where
    -- What the extractor has, and where it is: the values and the text that is left.
    abbrev pub At : Type 0
    At = List Text × Text

    -- `s[i]` behind the colon. `object` reads a nested object at this path.
    unfoldable pub member :
        (Text → List Text → Text → Parsed At) → ℕ → Text → List Text → Text → Parsed At
    member object fuel path out [] = malformed
    member object fuel path out (c ∷ s) =
        let text = str (c ∷ s) >>= λ r. parsed (set_value paths path r.0 out, r.1) in
        let nested = object path out s in
        let other = skip_value fuel 0 (c ∷ s) >>= λ rest.
        parsed (set_value paths path (take (length (c ∷ s) - length rest) (c ∷ s)) out, rest) in
        if c == b'"' then text else if c == b'{' && descend paths path then nested else other

    abbrev pub colon : Text → Parsed Text
    colon [] = malformed
    colon (c ∷ s) = if c == b':' then parsed (skip_ws s) else malformed

    -- `object` behind its brace, with the current prefix.
    unfoldable pub object : ℕ → Text → List Text → Text → Parsed At
    object zero prefix out s = out_of_fuel
    object (suc fuel) prefix out s = elim (skip_ws s) [
      | [] ↦ malformed
      | c ∷ t ↦
          let field = str (c ∷ t) >>= λ r. colon (skip_ws r.1) >>= λ v.
          member (object fuel) (length v) (extend prefix r.0) out v >>= λ a.
          object fuel prefix a.0 a.1 in
          let next = object fuel prefix out t in
          if c == b'}' then parsed (out, t) else if c == b',' then next else field
    ]

    abbrev pub no_values : List Text
    no_values = map (λ p. []) paths

    abbrev pub extract_from : Text → Parsed At
    extract_from [] = malformed
    extract_from (c ∷ s) = if c == b'{' then object (length s + 1) [] no_values s else malformed

    -- `Extract`: the values, where the line is an object; what follows the object is not read.
    unfoldable pub extract : Text → Option (List Text)
    extract line = elim (extract_from (skip_ws line)) [
      | parsed a ↦ some a.0
      | malformed ↦ none
      | out_of_fuel ↦ none
    ]
