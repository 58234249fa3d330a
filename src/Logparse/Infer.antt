-- ===== src/Logparse/Infer.antt =====
-- anomalyd/internal/logparse/severity.go, `InferLevel`: the level that the words of a template
-- tell.
pub mod Ranks
use self_hosted_anomaly_dete.Common.{
  ℕ, zero, suc, ◌+◌, ◌-◌, max, Bool, true, false, not, ◌&&◌, ◌||◌, Option, none, some, List, [],
  ◌∷◌, ◌++◌, ltb, leb, ◌==◌, if◌then◌else◌, length, take, drop,
}
use mathlib.Core.List.{foldl}
use Prim.Native.String.{String}
use self_hosted_anomaly_dete.Common.Keys.{nat_eq, list_beq}
use self_hosted_anomaly_dete.Common.Text.{Text, bytes, to_lower, cut_at, fields}
use self_hosted_anomaly_dete.Logparse.Levels.{Level, error, warn, unknown, one_of}

abbrev pub is_upper : ℕ → Bool
is_upper c = leb b'A' c && leb c b'Z'

-- `isWord`
abbrev pub is_word_byte : ℕ → Bool
is_word_byte c = leb b'a' c && leb c b'z' || is_upper c || leb b'0' c && leb c b'9' || c == b'_'

abbrev pub error_keywords : List String
error_keywords =
    "panic" ∷ "panicked" ∷ "fatal" ∷ "segfault" ∷ "sigsegv" ∷ "sigabrt" ∷ "sigbus" ∷ "deadlock"
    ∷ "oom" ∷ "oomkilled" ∷ "crashloopbackoff" ∷ "traceback" ∷ "outofmemoryerror"
    ∷ "stackoverflowerror" ∷ "memoryerror" ∷ "recursionerror" ∷ []

abbrev pub warn_keywords : List String
warn_keywords = "econnrefused" ∷ "econnreset" ∷ []

abbrev pub upper_errors : List String
upper_errors = "ERROR" ∷ "CRITICAL" ∷ "CRIT" ∷ "SEVERE" ∷ "EMERG" ∷ []

abbrev pub upper_warnings : List String
upper_warnings = "WARN" ∷ "WARNING" ∷ []

-- `len(w) > len(suffix) && strings.HasSuffix(w, suffix)`
abbrev pub ends_in : Text → Text → Bool
ends_in suffix w =
    ltb (length suffix) (length w) && list_beq (drop (length w - length suffix) w) suffix

abbrev pub class_level : Text → ℕ
class_level [] = 0
class_level (c ∷ w) =
    if is_upper c && (ends_in (bytes "Exception") (c ∷ w) || ends_in (bytes "Error") (c ∷ w))
    then 1
    else 0

-- `wordLevel`: 1 for a warning, 2 for an error.
unfoldable pub word_rank : Text → ℕ
word_rank w =
    if one_of error_keywords (to_lower w)
    then 2
    else if one_of warn_keywords (to_lower w)
    then 1
    else if one_of upper_errors w
    then 2
    else if one_of upper_warnings w
    then 1
    else class_level w

-- What follows the capitals and stars of a mask, which is not empty, and its `>`.
abbrev pub mask_rest : Bool → Text → Option Text
mask_rest some_byte [] = none
mask_rest some_byte (c ∷ s) =
    if is_upper c || c == b'*'
    then mask_rest true s
    else if some_byte && c == b'>'
    then some s
    else none

-- `maskEnd`
abbrev pub mask_end : Text → Option Text
mask_end [] = none
mask_end (c ∷ s) = if c == b'<' then mask_rest false s else none

abbrev pub word_split : Text → Text × Text
word_split [] = ([], [])
word_split (c ∷ s) =
    let (w, rest) = word_split s in if is_word_byte c then (c ∷ w, rest) else ([], c ∷ s)

abbrev pub is_key : Text → Bool
is_key [] = false
is_key (c ∷ s) = c == b'='

-- Whether `non-` stands before a word; `before` is what was read, the last byte first.
abbrev pub is_negated : Text → Bool
is_negated before = list_beq (to_lower (take 4 before)) (bytes "-non")

abbrev pub reverse_onto : Text → Text → Text
reverse_onto [] before = before
reverse_onto (c ∷ s) before = reverse_onto s (c ∷ before)

-- The loop over the bytes of a token: the rank of its words, and the words, `[]` for a mask.
unfoldable pub token_words : ℕ → Text → Text → ℕ × List Text
token_words fuel before [] = (0, [])
token_words zero before (c ∷ s) = (0, [])
token_words (suc fuel) before (c ∷ s) = elim (mask_end (c ∷ s)) [
  | some rest ↦
      let read = take (length (c ∷ s) - length rest) (c ∷ s) in
      let later = token_words fuel (reverse_onto read before) rest in (later.0, [] ∷ later.1)
  | none ↦
      let (w, rest) = word_split (c ∷ s) in
      let next = token_words fuel (c ∷ before) s in
      let later = token_words fuel (reverse_onto w before) rest in
      let rank = if is_key rest || is_negated before then 0 else word_rank w in
      if is_word_byte c then (max rank later.0, to_lower w ∷ later.1) else next
]

-- A token of a path or a URL breaks a phrase.
abbrev pub field_words : Text → ℕ × List Text
field_words tok = elim (cut_at b'/' tok) [
  | some parts ↦ (0, [] ∷ [])
  | none ↦ token_words (length tok) [] tok
]

-- The loop over the fields.
unfoldable pub template_words : List Text → ℕ × List Text
template_words [] = (0, [])
template_words (tok ∷ toks) =
    let here = field_words tok in
    let later = template_words toks in (max here.0 later.0, here.1 ++ later.1)

abbrev pub phrases : List (List String × ℕ)
phrases =
    ("out" ∷ "of" ∷ "memory" ∷ [], 2)
    ∷ ("segmentation" ∷ "fault" ∷ [], 2)
    ∷ ("core" ∷ "dumped" ∷ [], 2)
    ∷ ("nil" ∷ "pointer" ∷ "dereference" ∷ [], 2)
    ∷ ("uncaught" ∷ "exception" ∷ [], 2)
    ∷ ("unhandled" ∷ "exception" ∷ [], 2)
    ∷ ("exception" ∷ "in" ∷ "thread" ∷ [], 2)
    ∷ ("no" ∷ "space" ∷ "left" ∷ "on" ∷ "device" ∷ [], 2)
    ∷ ("too" ∷ "many" ∷ "open" ∷ "files" ∷ [], 2)
    ∷ ("connection" ∷ "refused" ∷ [], 1)
    ∷ ("connection" ∷ "reset" ∷ [], 1)
    ∷ ("broken" ∷ "pipe" ∷ [], 1)
    ∷ []

abbrev pub starts_with : List String → List Text → Bool
starts_with [] words = true
starts_with (p ∷ ps) [] = false
starts_with (p ∷ ps) (w ∷ words) = list_beq (bytes p) w && starts_with ps words

-- `hasRun`
unfoldable pub has_run : List String → List Text → Bool
has_run p [] = starts_with p []
has_run p (w ∷ words) = starts_with p (w ∷ words) || has_run p words

-- The loop over `phrases`.
unfoldable pub phrase_rank : List (List String × ℕ) → List Text → ℕ → ℕ
phrase_rank [] words best = best
phrase_rank ((p, level) ∷ ps) words best =
    phrase_rank ps words (if ltb best level && has_run p words then level else best)

unfoldable pub rank_of : Text → ℕ
rank_of template =
    let (best, words) = template_words (fields template) in phrase_rank phrases words best

abbrev pub level_at : ℕ → Level
level_at zero = unknown
level_at (suc zero) = warn
level_at (suc (suc n)) = error

-- `InferLevel`
unfoldable pub infer_level : Text → Level
infer_level template = level_at (rank_of template)
