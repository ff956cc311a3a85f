-- ===== src/Critic/RoundTrip.antt =====
-- A review that `validate_critic_review` of schemas.py accepts is accepted again, unchanged, from the JSON
-- form that `_review_json` of runner.py gives it.
pub mod Findings
use codex_claude_author_crit.Prelude.{
  ℕ, false, Option, List, ◌++◌, ◌≡◌, refl, subst, not, unique, map, string_eq, nat_eq, ok, ◌>>=◌,
  fail_if-eq-ok, >>=-eq-ok, ok-injective, arith, String,
}
use codex_claude_author_crit.Prelude.Int.{pos}
use codex_claude_author_crit.StateMachine.{Verdict}
use codex_claude_author_crit.Critic.Json.{
  Unicode, Json, int, str, arr, from_items, closed_mapping, at_key, nullable_string,
  required_string,
}
use codex_claude_author_crit.Critic.Review.{
  review_keys, critic_version, parse_verdict, Finding, CriticReview, ApprovalContext, string_at,
  finding_ids, check_verdict, findings, validate_critic_review, finding_json, review_json,
  string_json, verdict_value,
}
use codex_claude_author_crit.Critic.RoundTrip.Findings.{
  string_again, nullable_again, findings_again,
}

verdict_again :
    (s : String) (v : Verdict) → parse_verdict s ≡ ok v → parse_verdict (verdict_value v) ≡ ok v
unfolding parse_verdict
verdict_again s Verdict.lgtm h = refl
verdict_again s Verdict.revise h = refl
verdict_again s Verdict.blocked h = refl

verdict_value_of : (s : String) (v : Verdict) → parse_verdict s ≡ ok v → s ≡ verdict_value v
unfolding parse_verdict
verdict_value_of s v h =
    ground (
      arith,
      string_eq.beq_iff s "LGTM",
      string_eq.beq_iff s "REVISE",
      string_eq.beq_iff s "BLOCKED",
    )

module _ ⦃u : Unicode⦄ where
  -- A review that is accepted is accepted from its JSON form.
  abbrev AcceptedAgain : Option ApprovalContext → CriticReview → Type 0
  AcceptedAgain a r = validate_critic_review a (review_json r) ≡ ok r

  accepted_again :
      (a : Option ApprovalContext) (version : ℕ) (verdict : Verdict) (summary : String)
      (reason : Option String) (blocking others : List Finding)
      → critic_version (int (pos version)) ≡ ok version
      → required_string (str (verdict_value verdict)) ≡ ok (verdict_value verdict)
      → parse_verdict (verdict_value verdict) ≡ ok verdict
      → required_string (str summary) ≡ ok summary
      → nullable_string (string_json reason) ≡ ok reason
      → findings (arr (from_items (map finding_json blocking))) ≡ ok blocking
      → findings (arr (from_items (map finding_json others))) ≡ ok others
      → not (unique (finding_ids (blocking ++ others))) ≡ false
      → check_verdict a verdict reason blocking ≡ ok tt
      → AcceptedAgain a (record {
        schema_version = version;
        verdict = verdict;
        summary = summary;
        blocked_reason = reason;
        blocking_findings = blocking;
        non_blocking_findings = others;
      })
  unfolding validate_critic_review review_json
  accepted_again a version verdict summary reason blocking others h1 h2 h3 h4 h5 h6 h7 h8 h9 =
      rw (h1, h2, h3, h4, h5, h6, h7, h8, h9)

  verdict_text :
      (s : String) (v : Verdict)
      → required_string (str s) ≡ ok s
      → parse_verdict s ≡ ok v
      → required_string (str (verdict_value v)) ≡ ok (verdict_value v)
  verdict_text s v h k = subst (λ z. required_string (str z) ≡ ok z) (verdict_value_of s v k) h

  version_again : (j : Json) (n : ℕ) → critic_version j ≡ ok n → critic_version (int (pos n)) ≡ ok n
  unfolding critic_version
  version_again j n h = ground arith

  -- A review that is accepted from any document, under an approval context or none, is accepted under the
  -- same from the document that `_review_json` writes for it, and is the same review: the runner's second
  -- validation of a critic's answer does not change or refuse what the first one accepted.
  pub validate_critic_review-review_json :
      (a : Option ApprovalContext) (value : Json) (r : CriticReview)
      → validate_critic_review a value ≡ ok r
      → validate_critic_review a (review_json r) ≡ ok r
  unfolding validate_critic_review
  validate_critic_review-review_json a value r h =
      let (raw, _, h1) = >>=-eq-ok (closed_mapping review_keys value) _ h in
      let (version, v_ok, h2) = >>=-eq-ok (at_key "schema_version" raw >>= critic_version) _ h1 in
      let (verdict, d_ok, h3) = >>=-eq-ok (string_at "verdict" raw >>= parse_verdict) _ h2 in
      let (summary, s_ok, h4) = >>=-eq-ok (string_at "summary" raw) _ h3 in
      let (reason, r_ok, h5) = >>=-eq-ok (at_key "blocked_reason" raw >>= nullable_string) _ h4 in
      let (blocking, b_ok, h6) = >>=-eq-ok (at_key "blocking_findings" raw >>= findings) _ h5 in
      let (others, o_ok, h7) = >>=-eq-ok (at_key "non_blocking_findings" raw >>= findings) _ h6 in
      let (distinct, h8) = fail_if-eq-ok (not (unique (finding_ids (blocking ++ others)))) _ _ h7 in
      let (done, agrees, h9) = >>=-eq-ok (check_verdict a verdict reason blocking) _ h8 in
      let (vj, _, v_ok1) = >>=-eq-ok (at_key "schema_version" raw) _ v_ok in
      let (text, t_ok, d_ok1) = >>=-eq-ok (string_at "verdict" raw) _ d_ok in
      let (rj, _, r_ok1) = >>=-eq-ok (at_key "blocked_reason" raw) _ r_ok in
      let (bj, _, b_ok1) = >>=-eq-ok (at_key "blocking_findings" raw) _ b_ok in
      let (oj, _, o_ok1) = >>=-eq-ok (at_key "non_blocking_findings" raw) _ o_ok in
      subst (AcceptedAgain a) (ok-injective h9) (
        accepted_again a version verdict summary reason blocking others
          (version_again vj version v_ok1)
          (verdict_text text verdict (string_again "verdict" raw text t_ok) d_ok1)
          (verdict_again text verdict d_ok1) (string_again "summary" raw summary s_ok)
          (nullable_again rj reason r_ok1) (findings_again bj blocking b_ok1)
          (findings_again oj others o_ok1) distinct agrees)
