-- ===== src/Logparse/Levels.antt =====
-- anomalyd/internal/logparse/logparse.go, `Level` and `DetectLevel`: the level of a line.
use self_hosted_anomaly_dete.Common.{
  ℕ, zero, suc, Bool, true, false, ◌||◌, none, some, List, [], ◌∷◌, ltb, leb, ◌==◌, if◌then◌else◌,
  length,
}
use self_hosted_anomaly_dete.Common.Keys.{nat_eq, list_beq}
use self_hosted_anomaly_dete.Common.Text.{Text, bytes, to_lower, cut_at, trim_left, trim_right}
use Prim.Native.String.{String}

-- The four levels and "".
pub data Level : Type 0 where
  error warn info debug unknown : Level

abbrev pub one_of : List String → Text → Bool
one_of [] v = false
one_of (w ∷ ws) v = list_beq (bytes w) v || one_of ws v

abbrev pub error_words : List String
error_words =
    "error" ∷ "err" ∷ "e" ∷ "fatal" ∷ "critical" ∷ "crit" ∷ "panic" ∷ "alert" ∷ "emerg"
    ∷ "emergency" ∷ "severe" ∷ []

abbrev pub warn_words : List String
warn_words = "warn" ∷ "warning" ∷ "w" ∷ []

abbrev pub info_words : List String
info_words = "info" ∷ "i" ∷ "notice" ∷ "information" ∷ "informational" ∷ []

abbrev pub debug_words : List String
debug_words = "debug" ∷ "d" ∷ "trace" ∷ "t" ∷ "fine" ∷ "finer" ∷ "finest" ∷ []

abbrev pub word_level : Text → Level
word_level v =
    if one_of error_words v
    then error
    else if one_of warn_words v
    then warn
    else if one_of info_words v
    then info
    else if one_of debug_words v
    then debug
    else unknown

-- `Level`
unfoldable pub level_of : Text → Level
level_of v = if ltb 13 (length v) then unknown else word_level (to_lower v)

abbrev pub is_blank : ℕ → Bool
is_blank c = c == 32

-- A cutset of `strings.Trim`.
abbrev pub is_wrap : ℕ → Bool
is_wrap c = c == b'[' || c == b']' || c == b'(' || c == b')' || c == b':' || c == b','

abbrev pub is_quote : ℕ → Bool
is_quote c = c == b'"'

abbrev pub trim : (ℕ → Bool) → Text → Text
trim p s = trim_right p (trim_left p s)

-- The token up to the next blank, and the rest.
abbrev pub token : Text → Text × Text
token [] = ([], [])
token (c ∷ s) = let (t, rest) = token s in if is_blank c then ([], c ∷ s) else (c ∷ t, rest)

-- The level that a token names, where it is `key=level` or the level itself.
unfoldable pub token_level : Text → Level
token_level t =
    let bare = trim is_wrap t in
    let tok : Text = elim (cut_at b'=' bare) [
      | none ↦ bare
      | some (key, value) ↦ trim is_quote value
    ] in
    if leb 4 (length tok) then level_of tok else unknown

abbrev pub is_known : Level → Bool
is_known unknown = false
is_known l = true

-- The loop of `DetectLevel`, with the rounds that are left.
unfoldable pub detect_from : ℕ → Text → Level
detect_from zero msg = unknown
detect_from (suc rounds) [] = unknown
detect_from (suc rounds) (c ∷ msg) =
    let (tok, rest) = token (trim_left is_blank (c ∷ msg)) in
    let later = detect_from rounds rest in
    if is_known (token_level tok) then token_level tok else later

unfoldable pub detect_level : Text → Level
detect_level msg = detect_from 6 msg

-- The name of a level.
abbrev pub name_of : Level → String
name_of error = "error"
name_of warn = "warn"
name_of info = "info"
name_of debug = "debug"
name_of unknown = ""
