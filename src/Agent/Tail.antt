-- ===== src/Agent/Tail.antt =====
-- agent.go, `read`: chunks of a file split into lines, whatever `line` does with each.
pub mod Chunks
use self_hosted_anomaly_dete.Common.{
  ℕ, zero, suc, ◌+◌, ◌≤◌, ◌<◌, sym, ◌≡◌, refl, ap, ◌∙◌, false, Option, none, some, List, [], ◌∷◌,
  ◌++◌, ltb, ◌==◌, if◌then◌else◌, length, arith, All, length-append, if_true, if_false, inl, inr,
  Bool-cases, if_cases,
}
use mathlib.Core.Path.{subst}
use mathlib.Core.List.{foldl, append_assoc, append-nil, foldl-append}
use self_hosted_anomaly_dete.Common.Text.{Text, cut_at, Lacks, IsCut, cut_at-IsCut}

-- 1 << 20
abbrev pub runaway : ℕ
runaway = 1048576

-- 8 << 20
abbrev pub read_limit : ℕ
read_limit = 8388608

abbrev pub whole_line : Text → Text → Text
whole_line [] before = before
whole_line (c ∷ partial) before = (c ∷ partial) ++ before

module _ {ℓ} {S : Type ℓ} (mine : S → Text → S) where
  -- The rest of a chunk that ends no line: a runaway line is taken as it is.
  abbrev pub keep_partial : S → Text → S × Text
  keep_partial s partial =
      if ltb runaway (length partial) then (mine s partial, []) else (s, partial)

  -- The loop over the lines of a chunk, with the partial line before it.
  unfoldable pub read_chunk : ℕ → S → Text → Text → S × Text
  read_chunk zero s partial chunk = (s, partial)
  read_chunk (suc fuel) s partial chunk = elim (cut_at 10 chunk) [
    | none ↦ keep_partial s (partial ++ chunk)
    | some (before, rest) ↦ read_chunk fuel (mine s (whole_line partial before)) [] rest
  ]

  -- `read`, over what the file gives: it ends at an empty chunk, and after 8 MiB.
  unfoldable pub read : ℕ → S → Text → List Text → S × Text
  read total s partial [] = (s, partial)
  read total s partial ([] ∷ chunks) = (s, partial)
  read total s partial ((c ∷ chunk) ∷ chunks) =
      let (s', partial') = read_chunk (suc (length (c ∷ chunk))) s partial (c ∷ chunk) in
      let later = read (total + length (c ∷ chunk)) s' partial' chunks in
      if ltb total read_limit then later else (s, partial)
