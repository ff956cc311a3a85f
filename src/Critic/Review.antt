-- ===== src/Critic/Review.antt =====
-- `Finding`, `CriticReview` and `validate_critic_review` of schemas.py, and the JSON form that
-- `_review_json` of runner.py gives a review.
use codex_claude_author_crit.Prelude.{
  ℕ, String, Bool, true, false, Option, none, some, List, [], ◌∷◌, ◌++◌, ◌==◌, ◌&&◌, ◌||◌, not, map,
  elem, unique, length, if◌then◌else◌, ltb, string_eq, nat_eq, ok, fail, ◌>>=◌, ◌>>◌, fail_if,
}
use codex_claude_author_crit.Prelude.Int.{pos}
use codex_claude_author_crit.Prelude.Dict.{Dict}
use codex_claude_author_crit.Errors.{Outcome, StopReason}
use codex_claude_author_crit.StateMachine.{Verdict}
use codex_claude_author_crit.Critic.Json.{
  Unicode, Json, null, int, str, arr, obj, items, from_items, from_fields, invalid, closed_mapping,
  at_key, required_string, nullable_string, nullable_positive_int, is_finding_id,
}

pub record Finding : Type 0 where
  pub finding_id : String
  pub severity : String
  pub category : String
  pub file : Option String
  pub symbol : Option String
  pub line_start : Option ℕ
  pub line_end : Option ℕ
  pub problem : String
  pub evidence : String
  pub required_fix : String

pub record CriticReview : Type 0 where
  pub schema_version : ℕ
  pub verdict : Verdict
  pub summary : String
  pub blocked_reason : Option String
  pub blocking_findings : List Finding
  pub non_blocking_findings : List Finding

pub record ApprovalContext : Type 0 where
  pub all_validations_pass : Bool
  pub semantic_deltas_visible : Bool
  pub evidence_approval_eligible : Bool

abbrev pub severities : List String
severities = "critical" ∷ "high" ∷ "medium" ∷ "low" ∷ []

abbrev pub categories : List String
categories =
    "correctness" ∷ "security" ∷ "reliability" ∷ "performance" ∷ "maintainability" ∷ "testing"
    ∷ "spec_compliance" ∷ []

abbrev pub finding_keys : List String
finding_keys =
    "id" ∷ "severity" ∷ "category" ∷ "file" ∷ "symbol" ∷ "line_start" ∷ "line_end" ∷ "problem"
    ∷ "evidence" ∷ "required_fix" ∷ []

abbrev pub review_keys : List String
review_keys =
    "schema_version" ∷ "verdict" ∷ "summary" ∷ "blocked_reason" ∷ "blocking_findings"
    ∷ "non_blocking_findings" ∷ []

abbrev pub max_findings : ℕ
max_findings = 128

-- `(line_start is None) != (line_end is None)`
unfoldable pub half_range : Option ℕ → Option ℕ → Bool
half_range none (some _) = true
half_range (some _) none = true
half_range _ _ = false

-- `line_end < line_start`, where both are given.
unfoldable pub reversed_range : Option ℕ → Option ℕ → Bool
reversed_range (some start) (some end) = ltb end start
reversed_range _ _ = false

abbrev pub finding_ids : List Finding → List String
finding_ids = map (λ f. f.finding_id)

unfoldable pub parse_verdict : String → Outcome Verdict
parse_verdict s =
    if s == "LGTM"
    then ok Verdict.lgtm
    else if s == "REVISE"
    then ok Verdict.revise
    else if s == "BLOCKED"
    then ok Verdict.blocked
    else fail invalid

-- `raw["schema_version"]`: the integer 1, and no `bool`.
unfoldable pub critic_version : Json → Outcome ℕ
critic_version (int (pos n)) = do fail_if (not (n == 1)) invalid; ok n
critic_version _ = fail invalid

abbrev pub present : {A : Type 0} → Option A → Bool
present none = false
present (some _) = true

abbrev pub nonempty : {A : Type 0} → List A → Bool
nonempty [] = false
nonempty (_ ∷ _) = true

-- `approval is not None and not (...)`
unfoldable pub contradicts : Option ApprovalContext → Bool
contradicts none = false
contradicts (some a) =
    not (a.all_validations_pass && a.semantic_deltas_visible && a.evidence_approval_eligible)

-- The branches on the verdict.
unfoldable pub check_verdict :
    Option ApprovalContext → Verdict → Option String → List Finding → Outcome (Unit {0})
unfolding contradicts
check_verdict a Verdict.lgtm reason blocking = do
  fail_if (nonempty blocking || present reason) invalid
  fail_if (contradicts a) StopReason.critic_lgtm_with_failed_validation
check_verdict a Verdict.revise reason blocking = do
  fail_if (not (nonempty blocking)) invalid
  fail_if (present reason) invalid
check_verdict a Verdict.blocked reason blocking = do
  fail_if (not (present reason)) invalid
  fail_if (nonempty blocking) invalid

module _ ⦃u : Unicode⦄ where
  unfoldable pub string_at : String → Dict String Json → Outcome String
  unfolding at_key required_string
  string_at k raw = at_key k raw >>= required_string

  -- `_finding`
  unfoldable pub finding : Json → Outcome Finding
  unfolding closed_mapping at_key string_at nullable_string nullable_positive_int is_finding_id
      half_range reversed_range elem
  finding value = do
    raw ← closed_mapping finding_keys value
    finding_id ← string_at "id" raw
    fail_if (not (is_finding_id finding_id)) invalid
    severity ← string_at "severity" raw
    category ← string_at "category" raw
    fail_if (not (elem severity severities)) invalid
    fail_if (not (elem category categories)) invalid
    file ← at_key "file" raw >>= nullable_string
    symbol ← at_key "symbol" raw >>= nullable_string
    line_start ← at_key "line_start" raw >>= nullable_positive_int
    line_end ← at_key "line_end" raw >>= nullable_positive_int
    fail_if (half_range line_start line_end) invalid
    fail_if (reversed_range line_start line_end) invalid
    problem ← string_at "problem" raw
    evidence ← string_at "evidence" raw
    required_fix ← string_at "required_fix" raw
    ok (record {
      finding_id = finding_id;
      severity = severity;
      category = category;
      file = file;
      symbol = symbol;
      line_start = line_start;
      line_end = line_end;
      problem = problem;
      evidence = evidence;
      required_fix = required_fix;
    })

  unfoldable pub each_finding : List Json → Outcome (List Finding)
  unfolding finding
  each_finding [] = ok []
  each_finding (j ∷ js) = do f ← finding j; fs ← each_finding js; ok (f ∷ fs)

  -- `_findings`
  unfoldable pub findings : Json → Outcome (List Finding)
  unfolding each_finding items unique
  findings (arr js) = do
    fail_if (ltb max_findings (length (items js))) invalid
    fs ← each_finding (items js)
    fail_if (not (unique (finding_ids fs))) invalid
    ok fs
  findings _ = fail invalid

  unfoldable pub validate_critic_review : Option ApprovalContext → Json → Outcome CriticReview
  unfolding closed_mapping at_key string_at critic_version parse_verdict nullable_string findings
      unique check_verdict
  validate_critic_review approval value = do
    raw ← closed_mapping review_keys value
    version ← at_key "schema_version" raw >>= critic_version
    verdict ← string_at "verdict" raw >>= parse_verdict
    summary ← string_at "summary" raw
    reason ← at_key "blocked_reason" raw >>= nullable_string
    blocking ← at_key "blocking_findings" raw >>= findings
    non_blocking ← at_key "non_blocking_findings" raw >>= findings
    fail_if (not (unique (finding_ids (blocking ++ non_blocking)))) invalid
    check_verdict approval verdict reason blocking
    ok (record {
      schema_version = version;
      verdict = verdict;
      summary = summary;
      blocked_reason = reason;
      blocking_findings = blocking;
      non_blocking_findings = non_blocking;
    })

abbrev pub verdict_value : Verdict → String
verdict_value Verdict.lgtm = "LGTM"
verdict_value Verdict.revise = "REVISE"
verdict_value Verdict.blocked = "BLOCKED"

abbrev pub string_json : Option String → Json
string_json none = null
string_json (some s) = str s

abbrev pub int_json : Option ℕ → Json
int_json none = null
int_json (some n) = int (pos n)

-- `_finding_json`
unfoldable pub finding_json : Finding → Json
unfolding from_fields
finding_json f = obj (
    from_fields (
      ("id", str f.finding_id)
      ∷ ("severity", str f.severity)
      ∷ ("category", str f.category)
      ∷ ("file", string_json f.file)
      ∷ ("symbol", string_json f.symbol)
      ∷ ("line_start", int_json f.line_start)
      ∷ ("line_end", int_json f.line_end)
      ∷ ("problem", str f.problem)
      ∷ ("evidence", str f.evidence)
      ∷ ("required_fix", str f.required_fix)
      ∷ []))

-- `_review_json`
unfoldable pub review_json : CriticReview → Json
unfolding from_fields from_items finding_json
review_json r = obj (
    from_fields (
      ("schema_version", int (pos r.schema_version))
      ∷ ("verdict", str (verdict_value r.verdict))
      ∷ ("summary", str r.summary)
      ∷ ("blocked_reason", string_json r.blocked_reason)
      ∷ ("blocking_findings", arr (from_items (map finding_json r.blocking_findings)))
      ∷ ("non_blocking_findings", arr (from_items (map finding_json r.non_blocking_findings)))
      ∷ []))
