-- ===== src/Drain/Mask.antt =====
-- anomalyd/internal/drain/mask.go: `Tokenizer`. A position in a token is the bytes from there on,
-- and a match is its length, 0 for none. The interning of masked tokens, which saves memory, is
-- left out.
use Prim.Native.Nat.{bit_or}
use self_hosted_anomaly_dete.Common.{
  ℕ, zero, suc, ◌+◌, ◌-◌, Bool, true, false, not, ◌&&◌, ◌||◌, Option, none, some, List, [], ◌∷◌,
  ◌++◌, ltb, leb, ◌==◌, if◌then◌else◌, length, take, drop,
}
use self_hosted_anomaly_dete.Common.Keys.{nat_eq, list_beq}
use self_hosted_anomaly_dete.Drain.{Token, is_digit}

abbrev pub mask_uuid : Token
mask_uuid = b'<' ∷ b'U' ∷ b'U' ∷ b'I' ∷ b'D' ∷ b'>' ∷ []

abbrev pub mask_ip : Token
mask_ip = b'<' ∷ b'I' ∷ b'P' ∷ b'>' ∷ []

abbrev pub mask_hex : Token
mask_hex = b'<' ∷ b'H' ∷ b'E' ∷ b'X' ∷ b'>' ∷ []

abbrev pub mask_num : Token
mask_num = b'<' ∷ b'N' ∷ b'U' ∷ b'M' ∷ b'>' ∷ []

abbrev pub mask_email : Token
mask_email = b'<' ∷ b'E' ∷ b'M' ∷ b'A' ∷ b'I' ∷ b'L' ∷ b'>' ∷ []

abbrev pub is_space : ℕ → Bool
is_space c = c == 32 || c == 9 || c == 10 || c == 13 || c == 11 || c == 12

abbrev pub is_alpha : ℕ → Bool
is_alpha c = leb b'a' (bit_or c 32) && leb (bit_or c 32) b'z'

abbrev pub is_alnum : ℕ → Bool
is_alnum c = is_digit c || is_alpha c

abbrev pub is_hex : ℕ → Bool
is_hex c = is_digit c || leb b'a' (bit_or c 32) && leb (bit_or c 32) b'f'

abbrev pub is_email_char : ℕ → Bool
is_email_char c = is_alnum c || c == b'.' || c == b'_' || c == b'%' || c == b'+' || c == b'-'

abbrev pub boundary : Token → Bool
boundary [] = true
boundary (c ∷ s) = not (is_alnum c)

-- How many bytes at the front pass the test, `limit` at most.
unfoldable pub run_upto : (ℕ → Bool) → ℕ → Token → ℕ
run_upto p zero s = 0
run_upto p (suc limit) [] = 0
run_upto p (suc limit) (c ∷ s) = let more = run_upto p limit s in if p c then suc more else 0

abbrev pub run : (ℕ → Bool) → Token → ℕ
run p s = run_upto p (length s) s

abbrev pub hex_run : Token → ℕ → ℕ
hex_run s limit = run_upto is_hex limit s

-- The groups of `matchUUID`: what follows them.
unfoldable pub uuid_groups : List ℕ → Token → Option Token
uuid_groups [] s = some s
uuid_groups (want ∷ []) s = if hex_run s want == want then some (drop want s) else none
uuid_groups (want ∷ w ∷ ws) s = elim (drop want s) [
  | [] ↦ none
  | c ∷ rest ↦
      let more = uuid_groups (w ∷ ws) rest in
      if hex_run s want == want && c == b'-' then more else none
]

-- The length of what was read, where the match ends.
abbrev pub matched : Token → Option Token → ℕ
matched s none = 0
matched s (some rest) = if boundary rest then length s - length rest else 0

unfoldable pub match_uuid : Token → ℕ
match_uuid s = if ltb (length s) 36 then 0 else matched s (uuid_groups (8 ∷ 4 ∷ 4 ∷ 4 ∷ 12 ∷ []) s)

-- The groups of `matchIPv4`, with `more` groups after this one.
unfoldable pub ipv4_groups : ℕ → Token → Option Token
ipv4_groups zero s = let d = run_upto is_digit 3 s in if d == 0 then none else some (drop d s)
ipv4_groups (suc more) s =
    let d = run_upto is_digit 3 s in
    elim (drop d s) [
      | [] ↦ none
      | c ∷ rest ↦
          let after = ipv4_groups more rest in
          if d == 0 then none else if c == b'.' then after else none
    ]

unfoldable pub match_ipv4 : Token → ℕ
match_ipv4 s = matched s (ipv4_groups 3 s)

-- `0x` and hexadecimal digits.
unfoldable pub match_prefixed : Token → ℕ
match_prefixed [] = 0
match_prefixed (z ∷ []) = 0
match_prefixed (z ∷ x ∷ rest) =
    let l = run is_hex rest in
    if z == b'0' && bit_or x 32 == b'x' && ltb 0 l && boundary (drop l rest) then 2 + l else 0

unfoldable pub match_hex : Token → ℕ
match_hex s =
    let prefixed = match_prefixed s in
    let l = run is_hex s in
    if ltb 0 prefixed then prefixed else if leb 12 l && boundary (drop l s) then l else 0

abbrev pub units : List Token
units =
    (b'n' ∷ b's' ∷ [])
    ∷ (b'u' ∷ b's' ∷ [])
    ∷ (b'm' ∷ b's' ∷ [])
    ∷ (b's' ∷ [])
    ∷ (b'K' ∷ b'B' ∷ [])
    ∷ (b'M' ∷ b'B' ∷ [])
    ∷ (b'G' ∷ b'B' ∷ [])
    ∷ (b'B' ∷ [])
    ∷ (b'%' ∷ [])
    ∷ []

-- The first unit that ends the match.
unfoldable pub unit_length : List Token → Token → Option ℕ
unit_length [] s = none
unit_length (u ∷ us) s =
    let later = unit_length us s in
    if list_beq (take (length u) s) u && boundary (drop (length u) s)
    then some (length u)
    else later

-- `.` and digits.
abbrev pub fraction : Token → ℕ
fraction [] = 0
fraction (c ∷ s) = let d = run is_digit s in if c == b'.' && ltb 0 d then 1 + d else 0

unfoldable pub match_num : Token → ℕ
match_num s =
    let whole = run is_digit s in
    let p = whole + fraction (drop whole s) in
    let rest = drop p s in
    if whole == 0
    then 0
    else elim (unit_length units rest) [ some u ↦ p + u | none ↦ if boundary rest then p else 0 ]

-- The mask and the length of the match at the start of an alphanumeric run.
unfoldable pub match_at : Token → Token × ℕ
match_at s =
    if ltb 0 (match_uuid s)
    then (mask_uuid, match_uuid s)
    else if ltb 0 (match_ipv4 s)
    then (mask_ip, match_ipv4 s)
    else if ltb 0 (match_hex s)
    then (mask_hex, match_hex s)
    else (mask_num, match_num s)

-- The loop of `mask`: its output, and whether something was masked.
unfoldable pub mask_from : ℕ → Token → Token × Bool
mask_from fuel [] = ([], false)
mask_from zero (c ∷ s) = (c ∷ s, false)
mask_from (suc fuel) (c ∷ s) =
    let (m, l) = match_at (c ∷ s) in
    let j = run is_alnum (c ∷ s) in
    elim (is_alnum c) [
      | false ↦ let next = mask_from fuel s in (c ∷ next.0, next.1)
      | true ↦ elim (ltb 0 l) [
        | true ↦ let next = mask_from fuel (drop l (c ∷ s)) in (m ++ next.0, true)
        | false ↦ let next = mask_from fuel (drop j (c ∷ s)) in (take j (c ∷ s) ++ next.0, next.1)
      ]
    ]

-- The place of the last dot.
unfoldable pub last_dot : Token → Option ℕ
last_dot [] = none
last_dot (c ∷ s) = elim (last_dot s) [
  | some k ↦ some (k + 1)
  | none ↦ if c == b'.' then some 0 else none
]

-- The length without trailing dots and dashes.
unfoldable pub trimmed : Token → ℕ
trimmed [] = 0
trimmed (c ∷ s) = let t = trimmed s in if t == 0 && (c == b'.' || c == b'-') then 0 else t + 1

abbrev pub put_back : Token → Token → Token
put_back [] s = s
put_back (c ∷ before) s = put_back before (c ∷ s)

-- `findEmail` and what `mask` does with its span; `before` is what was passed, the last byte first.
unfoldable pub mask_address : Token → Token → Option Token
mask_address before [] = none
mask_address before (c ∷ s) =
    let l = run is_email_char before in
    let domain = take (run is_email_char s) s in
    let hi = trimmed domain in
    let later = mask_address (c ∷ before) s in
    let dot_inside : Bool = elim (last_dot domain) [
      | none ↦ false
      | some k ↦ ltb 0 k && ltb (k + 1) hi
    ] in
    if c == b'@' && ltb 0 l && dot_inside
    then some (put_back (drop l before) (mask_email ++ drop hi s))
    else later

-- Every round reads a byte at least, so the length is enough fuel.
unfoldable pub mask : Token → Token
mask tok = elim (mask_address [] tok) [
  | some tok' ↦ (mask_from (length tok') tok').0
  | none ↦ let out = mask_from (length tok) tok in if out.1 then out.0 else tok
]

abbrev pub is_dirty : Token → Bool
is_dirty [] = false
is_dirty (c ∷ s) = is_digit c || c == b'@' || is_dirty s

abbrev pub mask_dirty : Token → Token
mask_dirty tok = if is_dirty tok then mask tok else tok

abbrev pub not_space : ℕ → Bool
not_space c = not (is_space c)

-- The loops of `Tokenize`.
unfoldable pub tokenize_from : ℕ → Token → List Token
tokenize_from fuel [] = []
tokenize_from zero (c ∷ s) = []
tokenize_from (suc fuel) (c ∷ s) =
    let j = run not_space (c ∷ s) in
    elim (is_space c) [
      | true ↦ tokenize_from fuel s
      | false ↦ mask_dirty (take j (c ∷ s)) ∷ tokenize_from fuel (drop j (c ∷ s))
    ]

unfoldable pub tokenize : Token → List Token
tokenize line = tokenize_from (length line) line
