-- ===== src/Validation/Batch/Complete.antt =====
-- What `parse_validation_batch_result` of validation_batch.py promises of the records it returns.
use codex_claude_author_crit.Prelude.{
  ℕ, suc, ◌+◌, ◌≤◌, Bool, true, false, Option, List, [], ◌∷◌, ◌≡◌, refl, sym, ◌∙◌, ap, ◌⊎◌, ◌&&◌,
  ◌||◌, not, length, ltb, leb, All, subst, value_error, ok, ◌>>=◌, raise_if, >>=-eq-ok,
  ok-injective, arith,
}
use codex_claude_author_crit.Prelude.Bytes.{Bytes}
use codex_claude_author_crit.Prelude.Int.{ℤ, pos, negsuc, ℤ_eq}
use codex_claude_author_crit.Errors.{Outcome}
use codex_claude_author_crit.Critic.Json.{Json, null, float, bool, int, str, arr, obj, at_key}
use codex_claude_author_crit.Validation.Declassify.{Base64}
use codex_claude_author_crit.Validation.Batch.{
  ValidationBatchRecord, closed_object, equals_int, integer, array, flag, is_some_bytes,
  ends_stopped, b64, batch_record, batch_records, parse_validation_batch_result, result_keys,
  record_keys, max_runtime_ms,
}

-- The bytes of output that the records carry.
abbrev pub raw_bytes : List ValidationBatchRecord → ℕ
raw_bytes [] = 0
raw_bytes (r ∷ rs) = (length r.stdout + length r.stderr) + raw_bytes rs

-- The indexes are `n`, `n + 1`, and so on.
abbrev pub InSequence : ℕ → List ValidationBatchRecord → Type 0
InSequence n [] = Unit
InSequence n (r ∷ rs) = (r.index ≡ n) × InSequence (suc n) rs

raise_if-eq-ok :
    {A : Type 0} (b : Bool) (m : Outcome A) {a : A}
    → (raise_if b value_error >>= λ _. m) ≡ ok a
    → (b ≡ false) × (m ≡ ok a)
raise_if-eq-ok true m h = cc
raise_if-eq-ok false m h = (refl, h)

-- A check that never started timed out before it, and left no trace.
abbrev pub IsUnstarted : ValidationBatchRecord → Type 0
IsUnstarted r =
    (r.timed_out ≡ true)
    × (r.output_limited ≡ false)
    × (r.returncode ≡ pos 0)
    × (r.duration_ms ≡ pos 0)
    × (r.stdout ≡ [])
    × (r.stderr ≡ [])

integer-zero :
    (low high : ℤ) (j : Json) (z : ℤ)
    → integer low high j ≡ ok z
    → equals_int 0 j ≡ true
    → z ≡ pos 0
unfolding integer equals_int
integer-zero low high (int n) z h e =
    let (_, k) = raise_if-eq-ok _ _ h in sym (ok-injective k) ∙ (ℤ_eq.beq_iff n (pos 0)).0 e
integer-zero low high null z h e = cc
integer-zero low high (float f) z h e = cc
integer-zero low high (bool b) z h e = cc
integer-zero low high (str s) z h e = cc
integer-zero low high (arr s) z h e = cc
integer-zero low high (obj s) z h e = cc

at_most : (limit n : ℕ) → ltb limit n ≡ false → n ≤ limit
at_most limit n h = ground arith

no_more : (n limit : ℕ) → 0 + n ≤ limit → n ≤ limit
no_more n limit h = omega arith

is_some_bytes_lem : (bs : Bytes) → is_some_bytes bs ≡ false → bs ≡ []
is_some_bytes_lem [] h = refl
is_some_bytes_lem (c ∷ cs) h = cc

module _ ⦃b : Base64⦄ (b64decode : Bytes → Option Bytes) where
  batch_record_lem :
      (limit index total : ℕ) (value : Json) (r : ValidationBatchRecord) (after : ℕ)
      → batch_record b64decode limit index total value ≡ ok (r, after)
      → (r.index ≡ index)
        × (after ≡ total + (length r.stdout + length r.stderr))
        × (after ≤ limit)
        × (r.process_started ≡ false → IsUnstarted r)
  unfolding batch_record
  batch_record_lem limit index total value r after h =
      let (raw, _, h1) = >>=-eq-ok (closed_object record_keys value) _ h in
      let (stated, _, h2) = >>=-eq-ok (at_key "index" raw) _ h1 in
      let (_, h3) = raise_if-eq-ok _ _ h2 in
      let (timed_out, _, h4) = >>=-eq-ok (at_key "timed_out" raw >>= flag) _ h3 in
      let (limited, _, h5) = >>=-eq-ok (at_key "output_limited" raw >>= flag) _ h4 in
      let (started, _, h6) = >>=-eq-ok (at_key "process_started" raw >>= flag) _ h5 in
      let (stdout, _, h7) = >>=-eq-ok (at_key "stdout_b64" raw >>= b64 b64decode limit) _ h6 in
      let (stderr, _, h8) = >>=-eq-ok (at_key "stderr_b64" raw >>= b64 b64decode limit) _ h7 in
      let (code, _, h9) = >>=-eq-ok (at_key "returncode" raw) _ h8 in
      let (duration, _, h10) = >>=-eq-ok (at_key "duration_ms" raw) _ h9 in
      let (quiet, h11) =
        raise_if-eq-ok
          (not started
            && (not timed_out
                || limited
                || not (equals_int 0 code)
                || not (equals_int 0 duration)
                || is_some_bytes stdout
                || is_some_bytes stderr))
          _ h10 in
      let (fits, h12) =
        raise_if-eq-ok (ltb limit (total + (length stdout + length stderr))) _ h11 in
      let (returncode, code_ok, h13) = >>=-eq-ok (integer (negsuc 254) (pos 255) code) _ h12 in
      let (duration_ms, duration_ok, h14) =
        >>=-eq-ok (integer (pos 0) (pos (max_runtime_ms + 10000)) duration) _ h13 in
      let made : ValidationBatchRecord = record {
        index = index;
        returncode = returncode;
        timed_out = timed_out;
        output_limited = limited;
        process_started = started;
        duration_ms = duration_ms;
        stdout = stdout;
        stderr = stderr;
      } in
      subst
        (λ (x : ValidationBatchRecord × ℕ).
          (x.0.index ≡ index)
          × (x.1 ≡ total + (length x.0.stdout + length x.0.stderr))
          × (x.1 ≤ limit)
          × (x.0.process_started ≡ false → IsUnstarted x.0))
        {x = (made, total + (length stdout + length stderr))} (ok-injective h14)
        (
          refl,
          refl,
          at_most _ _ fits,
          λ unstarted.
              unstarted_lem started timed_out limited code duration stdout stderr returncode
                duration_ms quiet code_ok duration_ok unstarted,
        )
    where
      unstarted_lem :
          (started timed_out limited : Bool) (code duration : Json) (stdout stderr : Bytes)
          (returncode duration_ms : ℤ)
          → (not started
              && (not timed_out
                  || limited
                  || not (equals_int 0 code)
                  || not (equals_int 0 duration)
                  || is_some_bytes stdout
                  || is_some_bytes stderr))
            ≡ false
          → integer (negsuc 254) (pos 255) code ≡ ok returncode
          → integer (pos 0) (pos (max_runtime_ms + 10000)) duration ≡ ok duration_ms
          → started ≡ false
          → (timed_out ≡ true)
            × (limited ≡ false)
            × (returncode ≡ pos 0)
            × (duration_ms ≡ pos 0)
            × (stdout ≡ [])
            × (stderr ≡ [])
      unstarted_lem started timed_out limited code duration stdout stderr returncode duration_ms
            quiet c d s =
          ground (
            arith,
            integer-zero (negsuc 254) (pos 255) code returncode c,
            integer-zero (pos 0) (pos (max_runtime_ms + 10000)) duration duration_ms d,
            is_some_bytes_lem stdout,
            is_some_bytes_lem stderr,
          )

  batch_records_lem :
      (limit index total : ℕ) (js : List Json) (rs : List ValidationBatchRecord)
      → total ≤ limit
      → batch_records b64decode limit index total js ≡ ok rs
      → InSequence index rs
        × (total + raw_bytes rs ≤ limit)
        × All (λ r. r.process_started ≡ false → IsUnstarted r) rs
        × (length rs ≡ length js)
  unfolding batch_records
  batch_records_lem limit index total [] rs t h =
      subst
        (λ rs.
          InSequence index rs
          × (total + raw_bytes rs ≤ limit)
          × All (λ r. r.process_started ≡ false → IsUnstarted r) rs
          × (length rs ≡ 0))
        {x = []} (ok-injective h) (tt, omega arith, tt, refl)
  batch_records_lem limit index total (j ∷ js) rs t h =
      let (ra, r_ok, h1) = >>=-eq-ok (batch_record b64decode limit index total j) _ h in
      let (ss, ss_ok, h2) = >>=-eq-ok (batch_records b64decode limit (suc index) ra.1 js) _ h1 in
      let (i, sum, small, quiet) = batch_record_lem limit index total j ra.0 ra.1 r_ok in
      let (is, bound, quiets, len) = batch_records_lem limit (suc index) ra.1 js ss small ss_ok in
      subst
        (λ rs.
          InSequence index rs
          × (total + raw_bytes rs ≤ limit)
          × All (λ r. r.process_started ≡ false → IsUnstarted r) rs
          × (length rs ≡ suc (length js)))
        {x = ra.0 ∷ ss} (ok-injective h2) ((i, is), omega arith, (quiet, quiets), ap suc len)

  -- A result that the parser accepts, where the output limit is any number: the records stand at the
  -- indexes 0, 1 and so on; there are at most as many as the checks that were requested, and when there
  -- are fewer, the last one stopped the batch (timeout, output limit, a negative return code, 126 or
  -- 127); they carry at most `limit` bytes of output together; and a check that never started is
  -- recorded as timed out, with return code and duration 0 and no output.
  pub parse_validation_batch_result-IsComplete :
      (expected_checks limit : ℕ) (value : Json) (rs : List ValidationBatchRecord)
      → parse_validation_batch_result b64decode expected_checks limit value ≡ ok rs
      → InSequence 0 rs
        × (length rs ≤ expected_checks)
        × ((length rs ≡ expected_checks) ⊎ (ends_stopped rs ≡ true))
        × (raw_bytes rs ≤ limit)
        × All (λ r. r.process_started ≡ false → IsUnstarted r) rs
  unfolding parse_validation_batch_result
  parse_validation_batch_result-IsComplete expected_checks limit value rs h =
      let (raw, _, h1) = >>=-eq-ok (closed_object result_keys value) _ h in
      let (version, _, h2) = >>=-eq-ok (at_key "schema_version" raw) _ h1 in
      let (kind, _, h3) = >>=-eq-ok (at_key "kind" raw) _ h2 in
      let (_, h4) = raise_if-eq-ok _ _ h3 in
      let (js, _, h5) = >>=-eq-ok (at_key "records" raw >>= array) _ h4 in
      let (count, h6) =
        raise_if-eq-ok (not (leb 1 (length js) && leb (length js) expected_checks)) _ h5 in
      let (ss, ss_ok, h7) = >>=-eq-ok (batch_records b64decode limit 0 0 js) _ h6 in
      let (stopped, h8) =
        raise_if-eq-ok (ltb (length ss) expected_checks && not (ends_stopped ss)) _ h7 in
      let (is, bound, quiets, len) = batch_records_lem limit 0 0 js ss (omega arith) ss_ok in
      subst
        (λ rs.
          InSequence 0 rs
          × (length rs ≤ expected_checks)
          × ((length rs ≡ expected_checks) ⊎ (ends_stopped rs ≡ true))
          × (raw_bytes rs ≤ limit)
          × All (λ r. r.process_started ≡ false → IsUnstarted r) rs)
        {x = ss} (ok-injective h8)
        (
          is,
          short (length js) (length ss) expected_checks count len,
          ended (length js) (length ss) expected_checks (ends_stopped ss) count len stopped,
          no_more _ _ bound,
          quiets,
        )
    where
      short : (n m e : ℕ) → not (leb 1 n && leb n e) ≡ false → m ≡ n → m ≤ e
      short n m e c l = ground arith

      ended :
          (n m e : ℕ) (s : Bool)
          → not (leb 1 n && leb n e) ≡ false
          → m ≡ n
          → (ltb m e && not s) ≡ false
          → (m ≡ e) ⊎ (s ≡ true)
      ended n m e s c l h = ground arith
