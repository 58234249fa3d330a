-- ===== src/Novelty.antt =====
-- anomalyd/internal/server/eval.go, `evalNovelty` and `evalSignaturesLocked`: the findings of new
-- templates and of signatures, over the metadata of the templates. The texts, labels and levels of
-- a finding are left out. A map is visited in the order of its list. The
-- numbers of lines are those below 2^63, where an `int64` is what its bits are.
pub mod Life
pub mod Moves
pub mod Spacing
pub mod Expiry
use self_hosted_anomaly_dete.Common.{
  ℕ, ◌+◌, ◌-◌, Bool, true, false, not, ◌&&◌, ◌||◌, Option, none, some, List, [], ◌∷◌, ◌++◌, ltb,
  leb, ◌==◌, if◌then◌else◌, get_or,
}
use mathlib.Core.List.{foldl}
use self_hosted_anomaly_dete.Common.Int.{pos}
use self_hosted_anomaly_dete.Common.Keys.{nat_eq, list_eq, pair_eq, lookup, insert, has_key}
use self_hosted_anomaly_dete.Common.Text.{Text, bytes}
use self_hosted_anomaly_dete.Floats.{Floats}
use self_hosted_anomaly_dete.Store.{Key}
use self_hosted_anomaly_dete.Eval.{Kind, log_new, log_signature}
use self_hosted_anomaly_dete.Findings.{Finding, Board, firing, resolve_locked}
use self_hosted_anomaly_dete.Ingest.Logs.{Meta}

-- Times are in seconds; `names` are those of the signatures.
pub record Limits : Type 0 where
  pub min_lines : ℕ
  pub window : ℕ
  pub ttl : ℕ
  pub names : List Text

-- What a round says of a template.
pub data Verdict : Type 0 where
  quiet fires resolves : Verdict

abbrev pub TmplKey : Type 0
TmplKey = Text × ℕ

abbrev pub SigKey : Type 0
SigKey = Text × Text

-- `sigCand`: the template, the signature and the lines.
pub record SigCand : Type 0 where
  pub id : ℕ
  pub sig : ℕ
  pub lines : ℕ

abbrev pub Cands : Type 0
Cands = List (SigKey × SigCand)

-- 24 hours
abbrev pub sig_every : ℕ
sig_every = 86400

abbrev pub outranks : ℕ → ℕ → Option SigCand → Bool
outranks id lines none = true
outranks id lines (some c) = ltb c.lines lines || lines == c.lines && ltb id c.id

module _ (cfg : Limits) where
  -- The cases of the first loop, by when the template fired.
  unfoldable pub novel_case : ℕ → Meta → Option ℕ → Meta × Verdict
  novel_case now m none =
      if leb cfg.min_lines m.count
      then (record m { fired = some now }, fires)
      else if ltb cfg.window (now - m.made_at)
      then (record m { novel = false }, quiet)
      else (m, quiet)
  novel_case now m (some t) =
      if ltb cfg.ttl (now - t) then (record m { novel = false }, resolves) else (m, quiet)

  -- The body of the first loop, on a template's novelty.
  unfoldable pub novel_step : ℕ → Meta → Meta × Verdict
  unfolding novel_case
  novel_step now m = if not m.novel then (m, quiet) else novel_case now m m.fired

  -- The template with the most lines stands for each signature.
  unfoldable pub offer : TmplKey → ℕ → Cands → ℕ → Cands
  offer k lines cands i =
      let sk : SigKey = (k.0, get_or cfg.names i []) in
      if outranks k.1 lines (lookup sk cands)
      then (let c : SigCand = record { id = k.1; sig = i; lines = lines } in insert sk c cands)
      else cands

  abbrev pub offer_all : TmplKey → Meta → Cands → Cands
  offer_all k m cands =
      if ltb 0 m.sig_lines then foldl (offer k m.sig_lines) cands m.sigs else cands

  -- What the first loop collects: the metadata, the templates that fire, with their lines, those
  -- that resolve, and the candidates of the signatures.
  pub record Scan : Type 0 where
    pub tmpl : List (TmplKey × Meta)
    pub fire : List (TmplKey × ℕ)
    pub resolve : List TmplKey
    pub cands : Cands

  abbrev pub add_verdict : TmplKey → Meta × Verdict → Scan → Scan
  add_verdict k (m, quiet) r = record r { tmpl = (k, m) ∷ r.tmpl }
  add_verdict k (m, fires) r = record r { tmpl = (k, m) ∷ r.tmpl; fire = (k, m.count) ∷ r.fire }
  add_verdict k (m, resolves) r = record r { tmpl = (k, m) ∷ r.tmpl; resolve = k ∷ r.resolve }

  unfoldable pub scan : ℕ → List (TmplKey × Meta) → Cands → Scan
  scan now [] cands = record { tmpl = []; fire = []; resolve = []; cands = cands }
  scan now ((k, m) ∷ ms) cands =
      add_verdict k (novel_step now (record m { sig_lines = 0 }))
        (scan now ms (offer_all k m cands))

  module _ (fl : Floats) (itoa : ℕ → Text) where
    -- "new\xff"
    abbrev pub new_key : TmplKey → Key
    new_key k = bytes "new" ++ (255 ∷ (k.0 ++ (255 ∷ itoa k.1)))

    -- "sig\xff"
    abbrev pub sig_key : SigKey → Key
    sig_key sk = bytes "sig" ++ (255 ∷ (sk.0 ++ (255 ∷ sk.1)))

    -- A finding of a count of lines, with the zero values of the other fields.
    abbrev pub count_finding : Kind → Key → ℕ → ℕ → Finding fl
    count_finding kind key n now = record {
      kind = kind;
      state = firing;
      starts_at = now;
      updated_at = now;
      ends_at = none;
      bucket = pos now;
      score = fl.of_ℕ 0;
      observed = fl.of_ℕ n;
      expected = fl.of_ℕ 0;
      lower = fl.of_ℕ 0;
      upper = fl.of_ℕ 0;
      seasonal = false;
      up = true;
      key = key;
      resolve_sent = false;
    }

    abbrev pub fire_new : ℕ → Board fl → TmplKey × ℕ → Board fl
    fire_new now board (k, n) = record board {
      active = insert (new_key k) (count_finding log_new (new_key k) n now) board.active;
    }

    abbrev pub resolve_found : ℕ → Board fl → Option (Finding fl) → Board fl
    resolve_found now board none = board
    resolve_found now board (some f) = resolve_locked fl now board f

    abbrev pub resolve_new : ℕ → Board fl → TmplKey → Board fl
    resolve_new now board k = resolve_found now board (lookup (new_key k) board.active)

    -- The findings and the times of the last signature findings.
    abbrev pub Alarms : Type 0
    Alarms = Board fl × List (SigKey × ℕ)

    abbrev pub is_recent : ℕ → Option ℕ → Bool
    is_recent now none = false
    is_recent now (some at) = ltb (now - at) sig_every

    -- The body of the first loop of `evalSignaturesLocked`.
    unfoldable pub fire_sig : ℕ → Alarms → SigKey × SigCand → Alarms
    fire_sig now (board, fired) (sk, c) =
        if has_key (sig_key sk) board.active || is_recent now (lookup sk fired)
        then (board, fired)
        else (
          record board {
            active =
                insert (sig_key sk) (count_finding log_signature (sig_key sk) c.lines now)
                  board.active;
          },
          insert sk now fired,
        )

    abbrev pub is_signature : Kind → Bool
    is_signature log_signature = true
    is_signature _ = false

    abbrev pub is_over : ℕ → Finding fl → Bool
    is_over now f = is_signature f.kind && ltb cfg.ttl (now - f.starts_at)

    -- The second loop, over the findings as they are when it begins.
    unfoldable pub sweep : ℕ → List (Key × Finding fl) → Board fl → Board fl
    sweep now [] board = board
    sweep now ((k, f) ∷ fs) board =
        sweep now fs (if is_over now f then resolve_locked fl now board f else board)

    -- `evalSignaturesLocked`
    unfoldable pub eval_signatures : ℕ → Cands → Alarms → Alarms
    eval_signatures now cands a =
        let (board, fired) = foldl (fire_sig now) a cands in (sweep now board.active board, fired)

    -- `evalNovelty`
    unfoldable pub eval_novelty :
        ℕ → List (TmplKey × Meta) → Alarms → List (TmplKey × Meta) × Alarms
    eval_novelty now tmpl (board, fired) =
        let r = scan now tmpl [] in
        let board' = foldl (resolve_new now) (foldl (fire_new now) board r.fire) r.resolve in
        (r.tmpl, eval_signatures now r.cands (board', fired))
