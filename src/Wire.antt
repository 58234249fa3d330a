-- ===== src/Wire.antt =====
-- anomalyd/internal/wire/wire.go: the push of an agent, and the text exposition format. A writer is
-- the text that was written; `FormatFloat` is a parameter of a sample, the text of its value.
pub mod Escape
use Prim.Native.Nat.{bit_or}
use self_hosted_anomaly_dete.Common.{
  ℕ, Bool, true, false, not, ◌&&◌, ◌||◌, none, some, List, [], ◌∷◌, ◌++◌, leb, ◌==◌, if◌then◌else◌,
}
use self_hosted_anomaly_dete.Common.Int.{ℤ}
use self_hosted_anomaly_dete.Common.Text.{Text, bytes, cut_prefix}

-- `Counts` are pairs of a bucket's start and a number of lines, both signed.
pub record Item : Type 0 where
  pub service : Text
  pub template : Text
  pub level : Text
  pub counts : List (ℤ × ℤ)

pub record Push : Type 0 where
  pub agent : Text
  pub step : ℤ
  pub items : List Item

-- `escaper.Replace`
unfoldable pub escape : Text → Text
escape [] = []
escape (c ∷ s) =
    let rest = escape s in
    if c == b'\\'
    then b'\\' ∷ b'\\' ∷ rest
    else if c == b'"'
    then b'\\' ∷ b'"' ∷ rest
    else if c == 10
    then b'\\' ∷ b'n' ∷ rest
    else c ∷ rest

-- A byte of a label's name, the first one or a later one.
abbrev pub name_byte : Bool → ℕ → Bool
name_byte first c =
    c == b'_'
    || leb b'a' (bit_or c 32) && leb (bit_or c 32) b'z'
    || not first && leb b'0' c && leb c b'9'

abbrev pub all_bytes : (ℕ → Bool) → Text → Bool
all_bytes p [] = true
all_bytes p (c ∷ s) = p c && all_bytes p s

unfoldable pub valid_label_name : Text → Bool
valid_label_name [] = false
valid_label_name (c ∷ s) = elim (cut_prefix (bytes "__") (c ∷ s)) [
  | some rest ↦ false
  | none ↦ name_byte true c && all_bytes (name_byte false) s
]

-- The loop of `Sample` over the labels, after the mark that separates the next one.
unfoldable pub write_labels : ℕ → List (Text × Text) → Text × ℕ
write_labels mark [] = ([], mark)
write_labels mark ((name, value) ∷ labels) =
    if valid_label_name name
    then (let rest = write_labels b',' labels in
        (mark ∷ (name ++ (b'=' ∷ b'"' ∷ (escape value ++ (b'"' ∷ rest.0)))), rest.1))
    else write_labels mark labels

-- `Sample`
unfoldable pub sample_line : Text → List (Text × Text) → Text → Text
sample_line name labels value =
    let (text, mark) = write_labels b'{' labels in
    name ++ (text ++ ((if mark == b'{' then [] else b'}' ∷ []) ++ (32 ∷ (value ++ (10 ∷ [])))))

-- `Family`
unfoldable pub family_lines : Text → Text → Text → Text
family_lines name help typ =
    bytes "# HELP "
    ++ (name ++ (32 ∷ (help ++ (10 ∷ (bytes "# TYPE " ++ (name ++ (32 ∷ (typ ++ (10 ∷ [])))))))))
