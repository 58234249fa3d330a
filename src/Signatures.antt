-- ===== src/Signatures.antt =====
-- anomalyd/internal/server/signature.go, `ParseSignatures`: the lines of a signature file, as the
-- scanner gives them. `compile` is `regexp.Compile`; the texts of the errors and
-- that of the scanner itself are left out, and the white space that is trimmed is the ASCII one.
pub mod Names
use self_hosted_anomaly_dete.Common.{
  ℕ, suc, Bool, true, false, not, ◌&&◌, ◌||◌, Option, none, some, List, [], ◌∷◌, leb, ◌==◌,
  if◌then◌else◌,
}
use self_hosted_anomaly_dete.Common.Keys.{nat_eq, list_beq}
use self_hosted_anomaly_dete.Common.Text.{Text, bytes, cut_at, trim_left, trim_right, is_white}

-- The errors, with the number of the line.
pub data SigError : Type 0 where
  malformed duplicate bad_regex : ℕ → SigError

pub data Parsed (A : Type 0) : Type 0 where
  refused : SigError → Parsed A
  parsed : A → Parsed A

-- `Signature`
pub record Signature (Re : Type 0) : Type 0 where
  pub name : Text
  pub re : Re

-- `strings.TrimSpace`
unfoldable pub trim_space : Text → Text
trim_space s = trim_right is_white (trim_left is_white s)

-- `[A-Za-z0-9_.-]`
unfoldable pub is_name_byte : ℕ → Bool
is_name_byte c =
    leb b'A' c && leb c b'Z'
    || leb b'a' c && leb c b'z'
    || leb b'0' c && leb c b'9'
    || c == b'_'
    || c == b'.'
    || c == b'-'

unfoldable pub all_name_bytes : Text → Bool
all_name_bytes [] = true
all_name_bytes (c ∷ s) = let rest = all_name_bytes s in is_name_byte c && rest

-- `sigName`
unfoldable pub is_sig_name : Text → Bool
is_sig_name [] = false
is_sig_name (c ∷ s) = all_name_bytes (c ∷ s)

abbrev pub is_empty : Text → Bool
is_empty [] = true
is_empty (c ∷ s) = false

-- A blank line or a comment, which is skipped.
unfoldable pub is_skipped : Text → Bool
is_skipped [] = true
is_skipped (c ∷ line) = c == b'#'

unfoldable pub is_in : Text → List Text → Bool
is_in a [] = false
is_in a (b ∷ bs) = let rest = is_in a bs in list_beq b a || rest

-- The name and the pattern of a line, where it has a colon.
unfoldable pub name_and_expr : Text → Option (Text × Text)
name_and_expr line = elim (cut_at b':' line) [
  | none ↦ none
  | some (name, expr) ↦ some (trim_space name, trim_space expr)
]

module _ {Re : Type 0} (compile : Text → Option Re) where
  -- What a line adds to the signatures.
  unfoldable pub with_re : ℕ → Text → Option Re → Parsed (Signature Re)
  with_re n name none = refused (bad_regex n)
  with_re n name (some re) = parsed (record { name = name; re = re })

  unfoldable pub parse_entry : ℕ → List Text → Option (Text × Text) → Parsed (Signature Re)
  parse_entry n seen none = refused (malformed n)
  parse_entry n seen (some (name, expr)) =
      if not (is_sig_name name) || is_empty expr
      then refused (malformed n)
      else if is_in name seen
      then refused (duplicate n)
      else with_re n name (compile expr)

  -- What is left of the result behind a line's signature.
  abbrev pub put_first : Signature Re → Parsed (List (Signature Re)) → Parsed (List (Signature Re))
  put_first sg (refused e) = refused e
  put_first sg (parsed sgs) = parsed (sg ∷ sgs)

  abbrev pub parse_after :
      List Text
      → (List Text → Parsed (List (Signature Re)))
      → Parsed (Signature Re)
      → Parsed (List (Signature Re))
  parse_after seen rest (refused e) = refused e
  parse_after seen rest (parsed sg) = put_first sg (rest (sg.name ∷ seen))

  -- The body of the loop, on a trimmed line: `rest` goes on with the names that were seen.
  unfoldable pub parse_line :
      ℕ
      → List Text
      → (List Text → Parsed (List (Signature Re)))
      → Text
      → Parsed (List (Signature Re))
  parse_line n seen rest line =
      if is_skipped line
      then rest seen
      else parse_after seen rest (parse_entry n seen (name_and_expr line))

  -- The loop, from the line `n` on.
  unfoldable pub parse_lines : ℕ → List Text → List Text → Parsed (List (Signature Re))
  parse_lines n seen [] = parsed []
  parse_lines n seen (line ∷ lines) =
      parse_line n seen (λ seen'. parse_lines (suc n) seen' lines) (trim_space line)

  -- `ParseSignatures`
  abbrev pub parse_signatures : List Text → Parsed (List (Signature Re))
  parse_signatures lines = parse_lines 1 [] lines
