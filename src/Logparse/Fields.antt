-- ===== src/Logparse/Fields.antt =====
-- logparse.go: what `Extract` finds in an object of plain strings.
use self_hosted_anomaly_dete.Common.{
  ℕ, zero, suc, ◌+◌, ◌≤◌, ◌≡◌, refl, ap, ◌∙◌, false, Option, none, some, List, [], ◌∷◌, ◌++◌, map,
  ◌==◌, if◌then◌else◌, length, length-append, arith, All, true,
}
use self_hosted_anomaly_dete.Common.Keys.{nat_eq, list_beq}
use self_hosted_anomaly_dete.Common.Text.{Text}
use self_hosted_anomaly_dete.Logparse.{
  Parsed, parsed, malformed, out_of_fuel, ◌>>=◌, skip_ws, is_ws, scan, set_value, extend, content,
  str, member, colon, object, extract,
}

-- A string that needs no escape.
abbrev pub IsPlain : Text → Type 0
IsPlain = All (λ c. ((c == b'"') ≡ false) × ((c == b'\\') ≡ false))

abbrev pub IsPlainField : Text × Text → Type 0
IsPlainField f = IsPlain f.0 × IsPlain f.1

abbrev pub quoted : Text → Text → Text
quoted t rest = b'"' ∷ (t ++ (b'"' ∷ rest))

-- A field, with white space behind its colon.
abbrev pub print_field : Text → Text × Text → Text → Text
print_field gap (k, v) rest = quoted k (b':' ∷ (gap ++ quoted v rest))

-- What follows a field: a comma, white space and a field for each one more, and the closing brace.
abbrev pub print_more : Text → List (Text × Text) → Text
print_more gap [] = b'}' ∷ []
print_more gap (f ∷ fs) = b',' ∷ (gap ++ print_field gap f (print_more gap fs))

-- An object behind its opening brace, as JSON has it: a comma between two fields and none else.
abbrev pub print : Text → List (Text × Text) → Text
print gap [] = b'}' ∷ []
print gap (f ∷ fs) = print_field gap f (print_more gap fs)

-- The value of the last field with this key.
abbrev pub last_value : List (Text × Text) → Text → Text → Text
last_value [] p found = found
last_value ((k, v) ∷ fs) p found = last_value fs p (if list_beq p k then v else found)

scan-plain : (t rest : Text) → IsPlain t → scan (t ++ (b'"' ∷ rest)) ≡ parsed (t, false, rest)
unfolding scan
scan-plain [] [] h = refl
scan-plain [] (r ∷ rest) h = refl
scan-plain (c ∷ []) rest h = ground (arith, h.0, scan-plain [] rest tt)
scan-plain (c ∷ d ∷ t) rest h = ground (arith, h.0, scan-plain (d ∷ t) rest h.1)

-- White space is skipped, up to a byte that is none.
skip_ws-blank : (gap s : Text) → All (λ c. is_ws c ≡ true) gap → skip_ws (gap ++ s) ≡ skip_ws s
unfolding skip_ws
skip_ws-blank [] s h = refl
skip_ws-blank (c ∷ gap) s h = rw h.0 (skip_ws-blank gap s h.1)

module _ (unquote : Text → Option Text) where
  str-plain : (t rest : Text) → IsPlain t → str unquote (quoted t rest) ≡ parsed (t, rest)
  unfolding str
  str-plain t rest h = ap (λ r. r >>= content unquote) (scan-plain t rest h)

  module _ (paths : List Text) where
    -- What the fields leave of the values.
    abbrev values : List (Text × Text) → List Text → List Text
    values [] out = out
    values ((k, v) ∷ fs) out = values fs (set_value paths k v out)

    module _ (gap : Text) (blank : All (λ c. is_ws c ≡ true) gap) where
      object-field :
          (fuel : ℕ) (out : List Text) (k v rest : Text)
          → IsPlain k
          → IsPlain v
          → object unquote paths (suc fuel) [] out (print_field gap (k, v) rest)
            ≡ object unquote paths fuel [] (set_value paths k v out) rest
      unfolding object skip_ws str member
      object-field fuel out k v rest hk hv =
          ap
            (λ r. r >>= λ r. colon unquote paths (skip_ws r.1) >>= λ v.
              member unquote paths (object unquote paths fuel) (length v) (extend [] r.0) out v
              >>= λ a. object unquote paths fuel [] a.0 a.1)
            (str-plain k (b':' ∷ (gap ++ quoted v rest)) hk)
          ∙ ap
              (λ s. member unquote paths (object unquote paths fuel) (length s) k out s >>= λ a.
                object unquote paths fuel [] a.0 a.1)
              (skip_ws-blank gap (quoted v rest) blank)
          ∙ ap (λ r. (r >>= set_text) >>= λ a. object unquote paths fuel [] a.0 a.1)
              (str-plain v rest hv)
        where
          set_text : Text × Text → Parsed (List Text × Text)
          set_text r = parsed (set_value paths k r.0 out, r.1)

      length-print_field :
          (k v rest : Text) → length rest + 5 ≤ length (print_field gap (k, v) rest)
      length-print_field k v rest = omega (
        arith,
        length-append k (b'"' ∷ (b':' ∷ (gap ++ quoted v rest))),
        length-append gap (quoted v rest),
        length-append v (b'"' ∷ rest),
      )

      length-more :
          (k v : Text) (fs : List (Text × Text))
          → length (print_more gap fs) + 6 ≤ length (print_more gap ((k, v) ∷ fs))
      length-more k v fs = omega (
        arith,
        length-append gap (print_field gap (k, v) (print_more gap fs)),
        length-print_field k v (print_more gap fs),
      )

      object-blank :
          (fuel : ℕ) (out : List Text) (s : Text)
          → object unquote paths (suc fuel) [] out (gap ++ s)
            ≡ object unquote paths (suc fuel) [] out s
      unfolding object
      object-blank fuel out s = rw (object, skip_ws-blank gap s blank) refl

      object-more :
          (fs : List (Text × Text)) (fuel : ℕ) (out : List Text)
          → All IsPlainField fs
          → length (print_more gap fs) ≤ fuel
          → object unquote paths fuel [] out (print_more gap fs) ≡ parsed (values fs out, [])
      unfolding object skip_ws
      object-more [] zero out h l = absurd (omega arith)
      object-more (f ∷ fs) zero out h l = absurd (omega arith)
      object-more [] (suc fuel) out h l = refl
      object-more ((k, v) ∷ fs) (suc zero) out h l = absurd (omega (arith, length-more k v fs))
      object-more ((k, v) ∷ fs) (suc (suc fuel)) out h l =
          object-blank fuel out (print_field gap (k, v) (print_more gap fs))
          ∙ object-field fuel out k v (print_more gap fs) h.0.0 h.0.1
          ∙ object-more fs fuel (set_value paths k v out) h.1 (omega (arith, length-more k v fs))

      object-print :
          (fs : List (Text × Text)) (fuel : ℕ) (out : List Text)
          → All IsPlainField fs
          → length (print gap fs) ≤ fuel
          → object unquote paths fuel [] out (print gap fs) ≡ parsed (values fs out, [])
      object-print [] fuel out h l = object-more [] fuel out h l
      object-print ((k, v) ∷ fs) zero out h l =
          absurd (omega (arith, length-print_field k v (print_more gap fs)))
      object-print ((k, v) ∷ fs) (suc fuel) out h l =
          object-field fuel out k v (print_more gap fs) h.0.0 h.0.1
          ∙ object-more fs fuel (set_value paths k v out) h.1
              (omega (arith, length-print_field k v (print_more gap fs)))

set_value-map :
    (ps : List Text) (k v : Text) (g : Text → Text)
    → set_value ps k v (map g ps) ≡ map (λ p. if list_beq p k then v else g p) ps
unfolding set_value
set_value-map [] k v g = refl
set_value-map (p ∷ ps) k v g = ap (◌∷◌ (if list_beq p k then v else g p)) (set_value-map ps k v g)

values-map :
    (unquote : Text → Option Text) (fs : List (Text × Text)) (ps : List Text) (g : Text → Text)
    → values unquote ps fs (map g ps) ≡ map (λ p. last_value fs p (g p)) ps
values-map unquote [] ps g = refl
values-map unquote ((k, v) ∷ fs) ps g =
    ap (values unquote ps fs) (set_value-map ps k v g)
    ∙ values-map unquote fs ps (λ p. if list_beq p k then v else g p)

-- `Extract` of an object whose keys and values are strings without escapes, with a comma between two
-- fields and the same white space, or none, behind each comma and colon: for each path the value of
-- the last field with that key, and the empty text where there is none.
pub extract-print :
    (unquote : Text → Option Text) (paths : List Text) (gap : Text) (fs : List (Text × Text))
    → All (λ c. is_ws c ≡ true) gap
    → All IsPlainField fs
    → extract unquote paths (b'{' ∷ print gap fs) ≡ some (map (λ p. last_value fs p []) paths)
unfolding extract skip_ws
extract-print unquote paths gap fs blank h =
    ap (λ r. elim r [ parsed a ↦ some a.0 | malformed ↦ none | out_of_fuel ↦ none ])
      (object-print unquote paths gap blank fs (length (print gap fs) + 1) (map (λ p. []) paths) h
        (omega arith))
    ∙ ap some (values-map unquote fs paths (λ p. []))
