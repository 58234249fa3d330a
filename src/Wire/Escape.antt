-- ===== src/Wire/Escape.antt =====
-- wire.go: what a reader of the exposition format gets back of the labels.
use self_hosted_anomaly_dete.Common.{
  ℕ, zero, suc, Bool, true, false, Option, none, some, List, [], ◌∷◌, ◌==◌, if◌then◌else◌,
}
use self_hosted_anomaly_dete.Common.Text.{Text, cut_at}
use self_hosted_anomaly_dete.Wire.{valid_label_name}

abbrev add_byte : ℕ → Option (Text × Text) → Option (Text × Text)
add_byte c none = none
add_byte c (some (value, rest)) = some (c ∷ value, rest)

-- The format's rule for a label value: a backslash stands with the byte after it for one byte, the
-- first other quote ends it, and a line feed ends the line. `escaped` says what came before.
unfoldable pub read_value : Bool → Text → Option (Text × Text)
read_value escaped [] = none
read_value true (c ∷ s) = add_byte (if c == b'n' then 10 else c) (read_value false s)
read_value false (c ∷ s) =
    if c == b'"'
    then some ([], s)
    else if c == 10
    then none
    else if c == b'\\'
    then read_value true s
    else add_byte c (read_value false s)

-- The labels of a line up to its end: a mark, the name before `=`, a quote, the value.
abbrev add_label : Text × Text → Option (List (Text × Text)) → Option (List (Text × Text))
add_label l none = none
add_label l (some labels) = some (l ∷ labels)

abbrev after_value :
    (Text → Option (List (Text × Text))) → Text → Option (Text × Text) → Option (List (Text × Text))
after_value again name none = none
after_value again name (some (value, rest)) = add_label (name, value) (again rest)

abbrev after_name :
    (Text → Option (List (Text × Text))) → Option (Text × Text) → Option (List (Text × Text))
after_name again none = none
after_name again (some (name, [])) = none
after_name again (some (name, quote ∷ t)) = after_value again name (read_value false t)

unfoldable pub read_labels : ℕ → Text → Option (List (Text × Text))
read_labels fuel [] = some []
read_labels zero (mark ∷ s) = none
read_labels (suc fuel) (mark ∷ s) = after_name (read_labels fuel) (cut_at b'=' s)

-- The labels with a valid name.
unfoldable pub valid_labels : List (Text × Text) → List (Text × Text)
valid_labels [] = []
valid_labels ((name, value) ∷ labels) =
    let rest = valid_labels labels in if valid_label_name name then (name, value) ∷ rest else rest
