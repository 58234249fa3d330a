-- ===== src/Logparse/Container.antt =====
-- anomalyd/internal/logparse/container.go: the envelopes of container runtimes.
use self_hosted_anomaly_dete.Common.{
  ℕ, ◌≡◌, refl, ap, ◌∙◌, if_true, Bool, true, false, ◌&&◌, ◌||◌, Option, none, some, List, [], ◌∷◌,
  ◌++◌, leb, ◌==◌, if◌then◌else◌,
}
use self_hosted_anomaly_dete.Common.Keys.{nat_eq, list_beq}
use self_hosted_anomaly_dete.Common.Text.{Text, bytes, cut_at, cut_prefix, Lacks, cut_at-append}
use self_hosted_anomaly_dete.Logparse.{extract}

pub record Envelope : Type 0 where
  pub text : Text
  pub stderr : Bool
  pub partial : Bool

pub data Format : Type 0 where
  cri_format docker_format auto_format : Format

-- The stream's name and the blank after it.
unfoldable pub stream : Text → Option (Bool × Text)
stream rest = elim (cut_prefix (bytes "stdout ") rest) [
  | some after ↦ some (false, after)
  | none ↦ elim (cut_prefix (bytes "stderr ") rest) [
    | some after ↦ some (true, after)
    | none ↦ none
  ]
]

-- The tag and the text: the text is empty where no blank follows the tag.
abbrev pub tag_of : Text → Text × Text
tag_of rest = elim (cut_at 32 rest) [ none ↦ (rest, []) | some (tag, text) ↦ (tag, text) ]

abbrev pub envelope : Bool → Text × Text → Option Envelope
envelope stderr ([], text) = none
envelope stderr (c ∷ tag, text) =
    if c == b'P' || c == b'F'
    then some (record { text = text; stderr = stderr; partial = c == b'P' })
    else none

abbrev pub is_timestamp : Text → Bool
is_timestamp [] = false
is_timestamp (c ∷ time) = leb b'0' c && leb c b'9'

abbrev pub after_stream : Text → Option (Bool × Text) → Option Envelope
after_stream time none = none
after_stream time (some (stderr, after)) =
    if is_timestamp time then envelope stderr (tag_of after) else none

abbrev pub after_time : Option (Text × Text) → Option Envelope
after_time none = none
after_time (some (time, rest)) = after_stream time (stream rest)

unfoldable pub cri : Text → Option Envelope
cri line = after_time (cut_at 32 line)

-- The text without its last byte, where that is a line feed.
abbrev pub cut_newline : Text → Option Text
cut_newline [] = none
cut_newline (c ∷ []) = if c == 10 then some [] else none
cut_newline (c ∷ d ∷ s) = elim (cut_newline (d ∷ s)) [ none ↦ none | some t ↦ some (c ∷ t) ]

abbrev pub docker_text : Text → Bool → Envelope
docker_text log stderr = elim (cut_newline log) [
  | some text ↦ record { text = text; stderr = stderr; partial = false }
  | none ↦ record { text = log; stderr = stderr; partial = true }
]

module _ (unquote : Text → Option Text) where
  abbrev pub docker_values : List Text → Option Envelope
  docker_values (log ∷ name ∷ []) =
      if list_beq name (bytes "stdout")
      then some (docker_text log false)
      else if list_beq name (bytes "stderr")
      then some (docker_text log true)
      else none
  docker_values _ = none

  unfoldable pub docker : Text → Option Envelope
  docker line = elim (extract unquote (bytes "log" ∷ bytes "stream" ∷ []) line) [
    | none ↦ none
    | some vals ↦ docker_values vals
  ]

  abbrev pub starts_object : Text → Bool
  starts_object [] = false
  starts_object (c ∷ s) = c == b'{'

  -- `Unwrap`
  unfoldable pub unwrap : Format → Text → Option Envelope
  unwrap cri_format line = cri line
  unwrap docker_format line = docker line
  unwrap auto_format line = if starts_object line then docker line else cri line

-- The name of a stream and the blank after it, as containerd and CRI-O write them.
abbrev pub stream_text : Bool → Text
stream_text true = bytes "stderr "
stream_text false = bytes "stdout "

abbrev pub tag_byte : Bool → ℕ
tag_byte true = b'P'
tag_byte false = b'F'

-- A line in the format: the time, the stream, the tag with its further parts, the text.
abbrev pub cri_line : Text → Text → Envelope → Text
cri_line time more e =
    time ++ (32 ∷ (stream_text e.stderr ++ ((tag_byte e.partial ∷ more) ++ (32 ∷ e.text))))

stream-stream_text : (b : Bool) (s : Text) → stream (stream_text b ++ s) ≡ some (b, s)
unfolding stream
stream-stream_text true s = refl
stream-stream_text false s = refl

tag_of-line :
    (b : Bool) (more text : Text)
    → Lacks 32 more
    → tag_of ((tag_byte b ∷ more) ++ (32 ∷ text)) ≡ (tag_byte b ∷ more, text)
tag_of-line true more text h = rw (cut_at-append 32 (b'P' ∷ more) text (refl, h)) refl
tag_of-line false more text h = rw (cut_at-append 32 (b'F' ∷ more) text (refl, h)) refl

-- A line of the CRI format, with a time that begins with a digit, is unwrapped to its envelope: the
-- stream, whether the text goes on in the next line, and the text, whatever bytes it holds.
pub cri-cri_line :
    (time more : Text) (e : Envelope)
    → is_timestamp time ≡ true
    → Lacks 32 time
    → Lacks 32 more
    → cri (cri_line time more e) ≡ some e
unfolding cri
cri-cri_line time more e h k l =
    ap after_time (cut_at-append 32 time (stream_text e.stderr ++ rest) k)
    ∙ ap (after_stream time) (stream-stream_text e.stderr rest)
    ∙ if_true (is_timestamp time) _ none h
    ∙ ap (envelope e.stderr) (tag_of-line e.partial more e.text l)
    ∙ go e.partial e.stderr e.text
  where
    rest : Text
    rest = (tag_byte e.partial ∷ more) ++ (32 ∷ e.text)

    go :
        (b stderr : Bool) (text : Text)
        → envelope stderr (tag_byte b ∷ more, text)
          ≡ some (record { text = text; stderr = stderr; partial = b })
    go true stderr text = refl
    go false stderr text = refl
