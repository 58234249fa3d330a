-- ===== src/Signatures/Names.antt =====
-- signature.go: the signatures that a file gives.
use self_hosted_anomaly_dete.Common.{
  ℕ, suc, ◌≡◌, true, false, not, ◌||◌, Option, none, some, List, [], ◌∷◌, if_cases, arith,
}
use self_hosted_anomaly_dete.Common.Keys.{nat_eq, list_eq}
use self_hosted_anomaly_dete.Common.Text.{Text}
use self_hosted_anomaly_dete.Signatures.{
  Parsed, refused, parsed, Signature, trim_space, is_sig_name, is_empty, is_skipped, is_in,
  name_and_expr, with_re, parse_entry, put_first, parse_after, parse_line, parse_lines,
  parse_signatures,
}

module _ {Re : Type 0} (compile : Text → Option Re) where
  -- The names are as the format asks, none of them twice nor among those that were seen.
  abbrev pub AreNames : List Text → List (Signature Re) → Type 0
  AreNames seen [] = Unit
  AreNames seen (sg ∷ sgs) =
      (is_sig_name sg.name ≡ true) × (is_in sg.name seen ≡ false) × AreNames (sg.name ∷ seen) sgs

  -- Of a line's result, and of the loop's.
  abbrev IsEntry : List Text → Parsed (Signature Re) → Type 0
  IsEntry seen (refused e) = Unit
  IsEntry seen (parsed sg) = (is_sig_name sg.name ≡ true) × (is_in sg.name seen ≡ false)

  abbrev pub AreGood : List Text → Parsed (List (Signature Re)) → Type 0
  AreGood seen (refused e) = Unit
  AreGood seen (parsed sgs) = AreNames seen sgs

  with_re-IsEntry :
      (n : ℕ) (seen : List Text) (name : Text) (o : Option Re)
      → is_sig_name name ≡ true
      → is_in name seen ≡ false
      → IsEntry seen (with_re compile n name o)
  unfolding with_re
  with_re-IsEntry n seen name none h k = tt
  with_re-IsEntry n seen name (some re) h k = (h, k)

  parse_entry-IsEntry :
      (n : ℕ) (seen : List Text) (o : Option (Text × Text))
      → IsEntry seen (parse_entry compile n seen o)
  unfolding parse_entry
  parse_entry-IsEntry n seen none = tt
  parse_entry-IsEntry n seen (some (name, expr)) =
      if_cases (IsEntry seen) (not (is_sig_name name) || is_empty expr) (λ y. tt)
        (λ a.
          if_cases (IsEntry seen) (is_in name seen) (λ y. tt)
            (λ b. with_re-IsEntry n seen name (compile expr) (ground (arith, a)) b))

  put_first-AreGood :
      (seen : List Text) (sg : Signature Re) (r : Parsed (List (Signature Re)))
      → IsEntry seen (parsed sg)
      → AreGood (sg.name ∷ seen) r
      → AreGood seen (put_first compile sg r)
  put_first-AreGood seen sg (refused e) h k = tt
  put_first-AreGood seen sg (parsed sgs) h k = (h.0, h.1, k)

  parse_after-AreGood :
      (seen : List Text) (rest : List Text → Parsed (List (Signature Re)))
      (r : Parsed (Signature Re))
      → IsEntry seen r
      → ((seen' : List Text) → AreGood seen' (rest seen'))
      → AreGood seen (parse_after compile seen rest r)
  parse_after-AreGood seen rest (refused e) h k = tt
  parse_after-AreGood seen rest (parsed sg) h k =
      put_first-AreGood seen sg (rest (sg.name ∷ seen)) h (k (sg.name ∷ seen))

  parse_lines-AreGood :
      (n : ℕ) (seen lines : List Text) → AreGood seen (parse_lines compile n seen lines)
  unfolding parse_lines parse_line
  parse_lines-AreGood n seen [] = tt
  parse_lines-AreGood n seen (line ∷ lines) =
      let rest : List Text → Parsed (List (Signature Re)) =
        λ seen'. parse_lines compile (suc n) seen' lines in
      let k : (seen' : List Text) → AreGood seen' (rest seen') =
        λ seen'. parse_lines-AreGood (suc n) seen' lines in
      if_cases (AreGood seen) (is_skipped (trim_space line)) (λ y. k seen)
        (λ y.
          parse_after-AreGood seen rest
            (parse_entry compile n seen (name_and_expr (trim_space line)))
            (parse_entry-IsEntry n seen (name_and_expr (trim_space line))) k)

  -- Whatever the file, it is refused or it gives signatures whose names are of the bytes
  -- that the format allows, not empty, and none of them twice.
  pub parse_signatures-AreGood : (lines : List Text) → AreGood [] (parse_signatures compile lines)
  parse_signatures-AreGood lines = parse_lines-AreGood 1 [] lines
