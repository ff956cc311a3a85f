-- ===== src/Progress.antt =====
-- progress.py: the normalised state of a round that did not succeed, and the detector of a repeated one.
-- Checks and findings are sorted by their identifiers, which no two of one state share: the source's
-- order compares further fields only where identifiers are equal.
pub mod Adjacent
use codex_claude_author_crit.Prelude.{
  ℕ, String, Bool, false, Option, none, some, List, [], ◌∷◌, ◌++◌, ◌==◌, map, string_eq,
}
use codex_claude_author_crit.Prelude.Bytes.{Bytes, codes, bytes_lt}
use codex_claude_author_crit.Prelude.Int.{pos}
use codex_claude_author_crit.Prelude.Sorting.{sorted}
use codex_claude_author_crit.Critic.Json.{
  Json, null, bool, int, str, arr, obj, from_items, from_fields,
}
use codex_claude_author_crit.Manifest.Entry.{Digest}
use codex_claude_author_crit.Runner.Secrets.{Codecs}

pub record ValidationProgress : Type 0 where
  pub check_id : String
  pub outcome : String
  pub transition : String
  pub regression : Bool
  pub evidence_complete : Bool

pub record FindingProgress : Type 0 where
  pub finding_id : String
  pub severity : String
  pub category : String
  pub file : Option String
  pub line_start : Option ℕ
  pub line_end : Option ℕ
  pub problem : String
  pub evidence : String
  pub required_fix : String

pub record ProgressState : Type 0 where
  pub subject_fingerprint : String
  pub validations : List ValidationProgress
  pub verdict : String
  pub blocking_findings : List FindingProgress
  pub blocked_reason : Option String

-- `a < b` on texts, by code points.
abbrev pub text_lt : String → String → Bool
text_lt a b = bytes_lt (codes a) (codes b)

abbrev pub check_lt : ValidationProgress → ValidationProgress → Bool
check_lt a b = text_lt a.check_id b.check_id

abbrev pub finding_lt : FindingProgress → FindingProgress → Bool
finding_lt a b = text_lt a.finding_id b.finding_id

abbrev text_json : Option String → Json
text_json none = null
text_json (some s) = str s

abbrev line_json : Option ℕ → Json
line_json none = null
line_json (some n) = int (pos n)

unfoldable pub finding_json : FindingProgress → Json
unfolding from_fields
finding_json f = obj (
    from_fields (
      ("category", str f.category)
      ∷ ("evidence", str f.evidence)
      ∷ ("file", text_json f.file)
      ∷ ("id", str f.finding_id)
      ∷ ("line_end", line_json f.line_end)
      ∷ ("line_start", line_json f.line_start)
      ∷ ("problem", str f.problem)
      ∷ ("required_fix", str f.required_fix)
      ∷ ("severity", str f.severity)
      ∷ []))

unfoldable pub validation_json : ValidationProgress → Json
unfolding from_fields
validation_json v = obj (
    from_fields (
      ("check_id", str v.check_id)
      ∷ ("evidence_complete", bool v.evidence_complete)
      ∷ ("outcome", str v.outcome)
      ∷ ("regression", bool v.regression)
      ∷ ("transition", str v.transition)
      ∷ []))

-- The document that `canonical_bytes` prints.
unfoldable pub payload : ProgressState → Json
unfolding from_fields from_items sorted bytes_lt finding_json validation_json
payload s = obj (
    from_fields (
      ("blocked_reason", text_json s.blocked_reason)
      ∷ (
        "blocking_findings",
        arr (from_items (map finding_json (sorted finding_lt s.blocking_findings))),
      )
      ∷ ("subject_fingerprint", str s.subject_fingerprint)
      ∷ ("validations", arr (from_items (map validation_json (sorted check_lt s.validations))))
      ∷ ("verdict", str s.verdict)
      ∷ []))

module _ ⦃d : Digest⦄ ⦃j : Codecs⦄ where
  unfoldable pub canonical_bytes : ProgressState → Bytes
  unfolding payload
  canonical_bytes s = j.json_bytes (payload s)

  unfoldable pub fingerprint : ProgressState → String
  unfolding canonical_bytes
  fingerprint s = d.sha256_hex (codes "agent-loop-progress-v1" ++ 0 ∷ canonical_bytes s)

  -- `StallDetector.observe`, on the detector's `previous_fingerprint`: the answer and the new one.
  unfoldable pub observe : Option String → ProgressState → Bool × Option String
  unfolding fingerprint
  observe none s = (false, some (fingerprint s))
  observe (some previous) s = (previous == fingerprint s, some (fingerprint s))
