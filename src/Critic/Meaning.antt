-- ===== src/Critic/Meaning.antt =====
-- What `validate_critic_review` of schemas.py promises of the reviews it accepts.
use codex_claude_author_crit.Prelude.{
  ℕ, ◌≤◌, Bool, true, false, Option, none, some, List, [], ◌∷◌, ◌++◌, ◌≡◌, refl, ◌∙◌, subst, ◌≢◌,
  not, All, elem, unique, string_eq, nat_eq, ok, ◌>>=◌, fail_if-eq-ok, >>=-eq-ok, ok-injective,
  arith,
}
use codex_claude_author_crit.StateMachine.{Verdict}
use codex_claude_author_crit.Critic.Json.{
  Unicode, Json, null, float, bool, int, str, arr, obj, items, closed_mapping, at_key,
  nullable_string, nullable_positive_int, is_finding_id,
}
use codex_claude_author_crit.Critic.Review.{
  review_keys, critic_version, parse_verdict, Finding, CriticReview, ApprovalContext, severities,
  categories, half_range, reversed_range, finding_keys, string_at, finding_ids, nonempty, present,
  contradicts, check_verdict, finding, each_finding, findings, validate_critic_review,
}

not-false : (b : Bool) → not b ≡ false → b ≡ true
not-false true h = refl
not-false false h = cc

-- The lines are both absent, or both given and in order.
abbrev pub IsRange : Option ℕ → Option ℕ → Type 0
IsRange none none = Unit
IsRange (some start) (some end) = start ≤ end
IsRange _ _ = ⊥

IsRange-checks :
    (s e : Option ℕ) → half_range s e ≡ false → reversed_range s e ≡ false → IsRange s e
unfolding half_range reversed_range
IsRange-checks none none h k = tt
IsRange-checks none (some e) h k = cc
IsRange-checks (some s) none h k = cc
IsRange-checks (some s) (some e) h k = ground arith

abbrev pub IsValidFinding : Finding → Type 0
IsValidFinding f =
    (is_finding_id f.finding_id ≡ true)
    × (elem f.severity severities ≡ true)
    × (elem f.category categories ≡ true)
    × IsRange f.line_start f.line_end

module _ ⦃u : Unicode⦄ where
  finding-IsValidFinding : (value : Json) (f : Finding) → finding value ≡ ok f → IsValidFinding f
  unfolding finding
  finding-IsValidFinding value f h =
      let (raw, _, h1) = >>=-eq-ok (closed_mapping finding_keys value) _ h in
      let (i, _, h2) = >>=-eq-ok (string_at "id" raw) _ h1 in
      let (id_ok, h3) = fail_if-eq-ok _ _ _ h2 in
      let (s, _, h4) = >>=-eq-ok (string_at "severity" raw) _ h3 in
      let (c, _, h5) = >>=-eq-ok (string_at "category" raw) _ h4 in
      let (s_ok, h6) = fail_if-eq-ok _ _ _ h5 in
      let (c_ok, h7) = fail_if-eq-ok _ _ _ h6 in
      let (file, _, h8) = >>=-eq-ok (at_key "file" raw >>= nullable_string) _ h7 in
      let (symbol, _, h9) = >>=-eq-ok (at_key "symbol" raw >>= nullable_string) _ h8 in
      let (start, _, h10) = >>=-eq-ok (at_key "line_start" raw >>= nullable_positive_int) _ h9 in
      let (end, _, h11) = >>=-eq-ok (at_key "line_end" raw >>= nullable_positive_int) _ h10 in
      let (whole, h12) = fail_if-eq-ok _ _ _ h11 in
      let (in_order, h13) = fail_if-eq-ok _ _ _ h12 in
      let (problem, _, h14) = >>=-eq-ok (string_at "problem" raw) _ h13 in
      let (evidence, _, h15) = >>=-eq-ok (string_at "evidence" raw) _ h14 in
      let (fix, _, h16) = >>=-eq-ok (string_at "required_fix" raw) _ h15 in
      let range = IsRange-checks start end whole in_order in
      subst IsValidFinding
        {x = record {
          finding_id = i;
          severity = s;
          category = c;
          file = file;
          symbol = symbol;
          line_start = start;
          line_end = end;
          problem = problem;
          evidence = evidence;
          required_fix = fix;
        }}
        (ok-injective h16) (not-false _ id_ok, not-false _ s_ok, not-false _ c_ok, range)

  each_finding-All :
      (js : List Json) (fs : List Finding) → each_finding js ≡ ok fs → All IsValidFinding fs
  unfolding each_finding
  each_finding-All [] fs h = subst (All IsValidFinding) (ok-injective h) tt
  each_finding-All (j ∷ js) fs h =
      let (g, f_ok, h1) = >>=-eq-ok (finding j) _ h in
      let (gs, fs_ok, h2) = >>=-eq-ok (each_finding js) _ h1 in
      subst (All IsValidFinding) {x = g ∷ gs} (ok-injective h2)
        (finding-IsValidFinding j g f_ok, each_finding-All js gs fs_ok)

  findings-lem : (value : Json) (fs : List Finding) → findings value ≡ ok fs → All IsValidFinding fs
  unfolding findings
  findings-lem (arr js) fs h =
      let (_, h1) = fail_if-eq-ok _ _ _ h in
      let (gs, gs_ok, h2) = >>=-eq-ok (each_finding (items js)) _ h1 in
      let (_, h3) = fail_if-eq-ok _ _ _ h2 in each_finding-All (items js) fs (gs_ok ∙ h3)
  findings-lem null fs h = cc
  findings-lem (float f) fs h = cc
  findings-lem (bool b) fs h = cc
  findings-lem (int n) fs h = cc
  findings-lem (str s) fs h = cc
  findings-lem (obj o) fs h = cc

critic_version-one : (j : Json) (n : ℕ) → critic_version j ≡ ok n → n ≡ 1
unfolding critic_version
critic_version-one j n h = ground arith

-- What the verdict commits the review to.
abbrev pub IsCoherent : Option ApprovalContext → CriticReview → Verdict → Type 0
IsCoherent a r Verdict.lgtm =
    (r.blocking_findings ≡ []) × (r.blocked_reason ≡ none) × (contradicts a ≡ false)
IsCoherent a r Verdict.revise = (r.blocking_findings ≢ []) × (r.blocked_reason ≡ none)
IsCoherent a r Verdict.blocked = (r.blocked_reason ≢ none) × (r.blocking_findings ≡ [])

nonempty_lem : {A : Type 0} (xs : List A) → nonempty xs ≡ false → xs ≡ []
nonempty_lem [] h = refl
nonempty_lem (x ∷ xs) h = cc

present_lem : {A : Type 0} (x : Option A) → present x ≡ false → x ≡ none
present_lem none h = refl
present_lem (some x) h = cc

check_verdict-IsCoherent :
    (a : Option ApprovalContext) (r : CriticReview) (v : Verdict)
    → check_verdict a v r.blocked_reason r.blocking_findings ≡ ok tt
    → IsCoherent a r v
unfolding check_verdict
check_verdict-IsCoherent a r Verdict.lgtm h =
    ground (arith, nonempty_lem r.blocking_findings, present_lem r.blocked_reason)
check_verdict-IsCoherent a r Verdict.revise h = ground (arith, present_lem r.blocked_reason)
check_verdict-IsCoherent a r Verdict.blocked h = ground (arith, nonempty_lem r.blocking_findings)

module _ ⦃u : Unicode⦄ where
  -- Of a review that is accepted: its version is 1 and no identifier stands twice over both
  -- arrays. An LGTM has no blocking finding, no reason, and does not contradict the approval
  -- context where one is given; a REVISE has a blocking finding and no reason; a BLOCKED has a
  -- reason and no blocking finding. Every finding has a well-formed identifier, a severity and a
  -- category of the closed lists, and either no lines or two in order.
  pub validate_critic_review-IsCoherent :
      (a : Option ApprovalContext) (value : Json) (r : CriticReview)
      → validate_critic_review a value ≡ ok r
      → IsCoherent a r r.verdict
        × (r.schema_version ≡ 1)
        × (unique (finding_ids (r.blocking_findings ++ r.non_blocking_findings)) ≡ true)
        × All IsValidFinding r.blocking_findings
        × All IsValidFinding r.non_blocking_findings
  unfolding validate_critic_review
  validate_critic_review-IsCoherent a value r h =
      let (raw, _, h1) = >>=-eq-ok (closed_mapping review_keys value) _ h in
      let (version, v_ok, h2) = >>=-eq-ok (at_key "schema_version" raw >>= critic_version) _ h1 in
      let (verdict, _, h3) = >>=-eq-ok (string_at "verdict" raw >>= parse_verdict) _ h2 in
      let (summary, _, h4) = >>=-eq-ok (string_at "summary" raw) _ h3 in
      let (reason, _, h5) = >>=-eq-ok (at_key "blocked_reason" raw >>= nullable_string) _ h4 in
      let (blocking, b_ok, h6) = >>=-eq-ok (at_key "blocking_findings" raw >>= findings) _ h5 in
      let (others, o_ok, h7) = >>=-eq-ok (at_key "non_blocking_findings" raw >>= findings) _ h6 in
      let (distinct, h8) = fail_if-eq-ok (not (unique (finding_ids (blocking ++ others)))) _ _ h7 in
      let (_, agrees, h9) = >>=-eq-ok (check_verdict a verdict reason blocking) _ h8 in
      let (bj, _, b_ok1) = >>=-eq-ok (at_key "blocking_findings" raw) _ b_ok in
      let (oj, _, o_ok1) = >>=-eq-ok (at_key "non_blocking_findings" raw) _ o_ok in
      let (vj, _, v_ok1) = >>=-eq-ok (at_key "schema_version" raw) _ v_ok in
      let made : CriticReview = record {
        schema_version = version;
        verdict = verdict;
        summary = summary;
        blocked_reason = reason;
        blocking_findings = blocking;
        non_blocking_findings = others;
      } in
      subst
        (λ x.
          IsCoherent a x x.verdict
          × (x.schema_version ≡ 1)
          × (unique (finding_ids (x.blocking_findings ++ x.non_blocking_findings)) ≡ true)
          × All IsValidFinding x.blocking_findings
          × All IsValidFinding x.non_blocking_findings)
        {x = made} (ok-injective h9)
        (
          check_verdict-IsCoherent a made verdict agrees,
          critic_version-one vj version v_ok1,
          not-false _ distinct,
          findings-lem bj blocking b_ok1,
          findings-lem oj others o_ok1,
        )
