-- ===== src/Critic/RoundTrip/Findings.antt =====
-- The findings of a review and their texts, read again from the JSON form of runner.py.
use codex_claude_author_crit.Prelude.{
  ℕ, suc, false, Option, List, [], ◌∷◌, ◌≡◌, refl, ap, subst, not, elem, unique, map, string_eq,
  nat_eq, ok, ◌>>=◌, fail_if-eq-ok, >>=-eq-ok, ok-injective, arith, length, ltb, String,
}
use codex_claude_author_crit.Critic.Json.{
  Unicode, Json, null, float, bool, int, str, arr, obj, items, from_items, closed_mapping, at_key,
  nullable_string, nullable_positive_int, is_finding_id, required_string,
}
use codex_claude_author_crit.Critic.Review.{
  Finding, severities, categories, half_range, reversed_range, finding_keys, string_at, finding_ids,
  max_findings, finding, each_finding, findings, finding_json, string_json, int_json,
}

int_again :
    (j : Json) (n : Option ℕ)
    → nullable_positive_int j ≡ ok n
    → nullable_positive_int (int_json n) ≡ ok n
unfolding nullable_positive_int
int_again j n h = ground arith

items-from_items : (js : List Json) → items (from_items js) ≡ js
unfolding items from_items
items-from_items [] = refl
items-from_items (j ∷ js) = ap (λ z. j ∷ z) (items-from_items js)

module _ ⦃u : Unicode⦄ where
  pub required_again :
      (j : Json) (s : String) → required_string j ≡ ok s → required_string (str s) ≡ ok s
  unfolding required_string
  required_again j s h = ground arith

  pub string_again :
      (k : String) (raw : List (String × Json)) (s : String)
      → string_at k raw ≡ ok s
      → required_string (str s) ≡ ok s
  unfolding string_at
  string_again k raw s h = let (j, _, h1) = >>=-eq-ok (at_key k raw) _ h in required_again j s h1

  pub nullable_again :
      (j : Json) (s : Option String)
      → nullable_string j ≡ ok s
      → nullable_string (string_json s) ≡ ok s
  unfolding nullable_string required_string
  nullable_again j s h = ground arith

  -- A finding that is accepted is accepted from its JSON form.
  abbrev Again : Finding → Type 0
  Again f = finding (finding_json f) ≡ ok f

  again :
      (i s c : String) (file symbol : Option String) (start end : Option ℕ)
      (problem evidence fix : String)
      → required_string (str i) ≡ ok i
      → not (is_finding_id i) ≡ false
      → required_string (str s) ≡ ok s
      → required_string (str c) ≡ ok c
      → not (elem s severities) ≡ false
      → not (elem c categories) ≡ false
      → nullable_string (string_json file) ≡ ok file
      → nullable_string (string_json symbol) ≡ ok symbol
      → nullable_positive_int (int_json start) ≡ ok start
      → nullable_positive_int (int_json end) ≡ ok end
      → half_range start end ≡ false
      → reversed_range start end ≡ false
      → required_string (str problem) ≡ ok problem
      → required_string (str evidence) ≡ ok evidence
      → required_string (str fix) ≡ ok fix
      → Again (record {
        finding_id = i;
        severity = s;
        category = c;
        file = file;
        symbol = symbol;
        line_start = start;
        line_end = end;
        problem = problem;
        evidence = evidence;
        required_fix = fix;
      })
  unfolding finding finding_json
  again i s c file symbol start end problem evidence fix h1 h2 h3 h4 h5 h6 h7 h8 h9 h10 h11 h12 h13
        h14 h15 =
      rw (h1, h2, h3, h4, h5, h6, h7, h8, h9, h10, h11, h12, h13, h14, h15)

  finding-Again : (value : Json) (f : Finding) → finding value ≡ ok f → Again f
  unfolding finding
  finding-Again value f h =
      let (raw, _, h1) = >>=-eq-ok (closed_mapping finding_keys value) _ h in
      let (i, i_ok, h2) = >>=-eq-ok (string_at "id" raw) _ h1 in
      let (id_ok, h3) = fail_if-eq-ok _ _ _ h2 in
      let (s, s_text, h4) = >>=-eq-ok (string_at "severity" raw) _ h3 in
      let (c, c_text, h5) = >>=-eq-ok (string_at "category" raw) _ h4 in
      let (s_ok, h6) = fail_if-eq-ok _ _ _ h5 in
      let (c_ok, h7) = fail_if-eq-ok _ _ _ h6 in
      let (file, file_ok, h8) = >>=-eq-ok (at_key "file" raw >>= nullable_string) _ h7 in
      let (symbol, symbol_ok, h9) = >>=-eq-ok (at_key "symbol" raw >>= nullable_string) _ h8 in
      let (start, start_ok, h10) =
        >>=-eq-ok (at_key "line_start" raw >>= nullable_positive_int) _ h9 in
      let (end, end_ok, h11) = >>=-eq-ok (at_key "line_end" raw >>= nullable_positive_int) _ h10 in
      let (whole, h12) = fail_if-eq-ok _ _ _ h11 in
      let (in_order, h13) = fail_if-eq-ok _ _ _ h12 in
      let (problem, problem_ok, h14) = >>=-eq-ok (string_at "problem" raw) _ h13 in
      let (evidence, evidence_ok, h15) = >>=-eq-ok (string_at "evidence" raw) _ h14 in
      let (fix, fix_ok, h16) = >>=-eq-ok (string_at "required_fix" raw) _ h15 in
      let (file_j, _, file_ok') = >>=-eq-ok (at_key "file" raw) _ file_ok in
      let (symbol_j, _, symbol_ok') = >>=-eq-ok (at_key "symbol" raw) _ symbol_ok in
      let (start_j, _, start_ok') = >>=-eq-ok (at_key "line_start" raw) _ start_ok in
      let (end_j, _, end_ok') = >>=-eq-ok (at_key "line_end" raw) _ end_ok in
      subst Again (ok-injective h16) (
        again i s c file symbol start end problem evidence fix (string_again "id" raw i i_ok) id_ok
          (string_again "severity" raw s s_text) (string_again "category" raw c c_text) s_ok c_ok
          (nullable_again file_j file file_ok') (nullable_again symbol_j symbol symbol_ok')
          (int_again start_j start start_ok') (int_again end_j end end_ok') whole in_order
          (string_again "problem" raw problem problem_ok)
          (string_again "evidence" raw evidence evidence_ok)
          (string_again "required_fix" raw fix fix_ok))

  each_again :
      (js : List Json) (fs : List Finding)
      → each_finding js ≡ ok fs
      → each_finding (map finding_json fs) ≡ ok fs
  unfolding each_finding
  each_again [] fs h = subst (λ z. each_finding (map finding_json z) ≡ ok z) (ok-injective h) refl
  each_again (j ∷ js) fs h =
      let (g, g_ok, h1) = >>=-eq-ok (finding j) _ h in
      let (gs, gs_ok, h2) = >>=-eq-ok (each_finding js) _ h1 in
      subst (λ z. each_finding (map finding_json z) ≡ ok z) {x = g ∷ gs} (ok-injective h2)
        (rw (finding-Again j g g_ok, each_again js gs gs_ok))

  length-each_finding :
      (js : List Json) (fs : List Finding)
      → each_finding js ≡ ok fs
      → length (map finding_json fs) ≡ length js
  unfolding each_finding
  length-each_finding [] fs h = subst (λ z. length (map finding_json z) ≡ 0) (ok-injective h) refl
  length-each_finding (j ∷ js) fs h =
      let (g, g_ok, h1) = >>=-eq-ok (finding j) _ h in
      let (gs, gs_ok, h2) = >>=-eq-ok (each_finding js) _ h1 in
      subst (λ z. length (map finding_json z) ≡ suc (length js)) {x = g ∷ gs} (ok-injective h2)
        (ap suc (length-each_finding js gs gs_ok))

  pub findings_again :
      (value : Json) (fs : List Finding)
      → findings value ≡ ok fs
      → findings (arr (from_items (map finding_json fs))) ≡ ok fs
  unfolding findings
  findings_again (arr js) fs h =
      let (few, h1) = fail_if-eq-ok (ltb max_findings (length (items js))) _ _ h in
      let (gs, gs_ok, h2) = >>=-eq-ok (each_finding (items js)) _ h1 in
      let (distinct, h3) = fail_if-eq-ok (not (unique (finding_ids gs))) _ _ h2 in
      subst (λ z. findings (arr (from_items (map finding_json z))) ≡ ok z) (ok-injective h3)
        (rw (
          items-from_items (map finding_json gs),
          length-each_finding (items js) gs gs_ok,
          few,
          each_again (items js) gs gs_ok,
          distinct,
        ))
  findings_again null fs h = cc
  findings_again (float f) fs h = cc
  findings_again (bool b) fs h = cc
  findings_again (int n) fs h = cc
  findings_again (str s) fs h = cc
  findings_again (obj o) fs h = cc
