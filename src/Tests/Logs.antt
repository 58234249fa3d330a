-- ===== src/Tests/Logs.antt =====
-- wire.go, logparse.go, container.go and severity.go at short lines.
use self_hosted_anomaly_dete.Common.{
  ◌≡◌, ◌≤◌, ◌∷◌, ◌++◌, [], refl, Bool, true, false, not, ◌&&◌, ◌==◌, if◌then◌else◌, Option, some,
  List, map, suc, length,
}
use self_hosted_anomaly_dete.Common.Text.{Text, bytes}
use self_hosted_anomaly_dete.Logparse.{extract_from, skip_ws, extract}
use self_hosted_anomaly_dete.Logparse.Total.{Leaves, after, extract_from-Leaves}
use self_hosted_anomaly_dete.Logparse.Fields.{print, last_value, extract-print}
use self_hosted_anomaly_dete.Logparse.Infer.{rank_of}
use self_hosted_anomaly_dete.Logparse.Infer.Ranks.{rank_of_blank}

-- The simple escapes only: the byte after a backslash stands for itself.
abbrev bare : Bool → Text → Text
bare escaped [] = []
bare escaped (c ∷ s) = if not escaped && c == b'\\' then bare true s else c ∷ bare false s

abbrev unquote : Text → Option Text
unquote t = some (bare false t)

abbrev labels : List (Text × Text)
labels = (bytes "service", b'a' ∷ b'"' ∷ 10 ∷ []) ∷ (bytes "__x", bytes "y") ∷ []

abbrev paths : List Text
paths = bytes "msg" ∷ bytes "service.name" ∷ []

abbrev line : Text
line = bytes " {\"msg\": \"a\\\"b\", \"n\": [1, {}], \"service\": {\"name\": \"x\"}} rest"

extract_from-Leaves_example :
    Leaves after (suc (length line)) (extract_from unquote paths (skip_ws line))
extract_from-Leaves_example = extract_from-Leaves unquote paths line

abbrev pairs : List (Text × Text)
pairs = (bytes "k", bytes "v") ∷ (bytes "m", bytes "w") ∷ (bytes "k", bytes "u") ∷ []

extract-print_example :
    extract unquote (bytes "k" ∷ bytes "z" ∷ []) (b'{' ∷ print (32 ∷ []) pairs)
    ≡ some (map (λ p. last_value pairs p []) (bytes "k" ∷ bytes "z" ∷ []))
extract-print_example =
    extract-print unquote (bytes "k" ∷ bytes "z" ∷ []) (32 ∷ []) pairs (refl, tt)
      (
        (((refl, refl), tt), ((refl, refl), tt)),
        ((((refl, refl), tt), ((refl, refl), tt)), ((((refl, refl), tt), ((refl, refl), tt)), tt)),
      )

rank_of_blank_example :
    (rank_of (bytes "out of") ≤ rank_of (bytes "out of" ++ (32 ∷ bytes "memory <NUM>")))
    × (rank_of (bytes "memory <NUM>") ≤ rank_of (bytes "out of" ++ (32 ∷ bytes "memory <NUM>")))
rank_of_blank_example = rank_of_blank (bytes "out of") (bytes "memory <NUM>")
