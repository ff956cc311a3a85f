-- ===== src/Validation/Batch.antt =====
-- The closed protocol of validation_batch.py, from the parsed JSON value on. `base64.b64decode` with
-- `validate=True` is a parameter: none where it raises.
pub mod Complete
use Prim.Native.String.{len}
use codex_claude_author_crit.Prelude.{
  ℕ, suc, ◌+◌, ◌*◌, String, Bool, true, false, Option, none, some, List, [], ◌∷◌, ◌==◌, ◌&&◌, ◌||◌,
  not, map, all, any, elem, unique, length, ltb, leb, string_eq, nat_eq, list_eq, Builtin,
  value_error, ok, throw, ◌>>=◌, ◌>>◌, raise_if, if◌then◌else◌,
}
use codex_claude_author_crit.Prelude.Bytes.{Bytes, codes}
use codex_claude_author_crit.Prelude.Int.{ℤ, pos, negsuc, leb_ℤ, ltb_ℤ, ℤ_eq}
use codex_claude_author_crit.Prelude.Dict.{Dict}
use codex_claude_author_crit.Errors.{Outcome}
use codex_claude_author_crit.Critic.Json.{
  Json, null, float, bool, int, str, arr, obj, items, fields, from_items, from_fields, at_key,
}
use codex_claude_author_crit.Validation.Declassify.{Base64}

pub record ValidationBatchCheck : Type 0 where
  pub check_id : String
  pub command : String
  pub timeout_ms : ℤ
  pub output_max_bytes : ℤ

pub record ValidationBatchRequest : Type 0 where
  pub checks : List ValidationBatchCheck
  pub max_raw_output_bytes : ℤ

pub record ValidationBatchRecord : Type 0 where
  pub index : ℕ
  pub returncode : ℤ
  pub timed_out : Bool
  pub output_limited : Bool
  pub process_started : Bool
  pub duration_ms : ℤ
  pub stdout : Bytes
  pub stderr : Bytes

abbrev pub max_runtime_ms : ℕ
max_runtime_ms = 45 * 60 * 1000

abbrev pub max_output_bytes : ℕ
max_output_bytes = 16 * 1024 * 1024

abbrev pub max_log_bytes : ℕ
max_log_bytes = 32 * 1024 * 1024

abbrev key_names : Dict String Json → List String
key_names = map (λ kv. kv.0)

-- `_object`
unfoldable pub closed_object : List String → Json → Outcome (Dict String Json)
unfolding all elem fields
closed_object keys (obj fs) = do
  let raw = fields fs
  raise_if (not (all (λ k. elem k keys) (key_names raw) && all (λ k. elem k (key_names raw)) keys))
      value_error
  ok raw
closed_object keys _ = throw value_error

-- `value == n` on a JSON value: Python's `True` and `1.0` equal 1.
unfoldable pub equals_int : ℕ → Json → Bool
equals_int n (int z) = z == pos n
equals_int n (bool true) = 1 == n
equals_int n (bool false) = 0 == n
equals_int n (float (some z)) = z == pos n
equals_int n _ = false

unfoldable pub equals_text : String → Json → Bool
equals_text s (str t) = t == s
equals_text s _ = false

-- `_integer`
unfoldable pub integer : ℤ → ℤ → Json → Outcome ℤ
integer low high (int z) = do raise_if (not (leb_ℤ low z && leb_ℤ z high)) value_error; ok z
integer low high _ = throw value_error

-- `_text`
unfoldable pub text : ℕ → Json → Outcome String
unfolding elem
text limit (str s) = do
  raise_if (s == "" || elem 0 (codes s)) value_error
  raise_if (ltb limit (len s)) value_error
  ok s
text limit _ = throw value_error

unfoldable pub array : Json → Outcome (List Json)
unfolding items
array (arr js) = ok (items js)
array _ = throw value_error

unfoldable pub flag : Json → Outcome Bool
flag (bool b) = ok b
flag _ = throw value_error

abbrev pub check_keys : List String
check_keys = "check_id" ∷ "command" ∷ "timeout_ms" ∷ "output_max_bytes" ∷ []

abbrev pub request_keys : List String
request_keys = "schema_version" ∷ "kind" ∷ "max_raw_output_bytes" ∷ "checks" ∷ []

abbrev pub result_keys : List String
result_keys = "schema_version" ∷ "kind" ∷ "records" ∷ []

abbrev pub record_keys : List String
record_keys =
    "index" ∷ "returncode" ∷ "timed_out" ∷ "output_limited" ∷ "process_started" ∷ "duration_ms"
    ∷ "stdout_b64" ∷ "stderr_b64" ∷ []

-- One pass of the loop of `parse_validation_batch_request`.
unfoldable pub batch_check : Json → Outcome ValidationBatchCheck
unfolding closed_object at_key text integer
batch_check value = do
  check ← closed_object check_keys value
  check_id ← at_key "check_id" check >>= text 256
  command ← at_key "command" check >>= text (32 * 1024)
  timeout ← at_key "timeout_ms" check >>= integer (pos 1) (pos max_runtime_ms)
  output ← at_key "output_max_bytes" check >>= integer (pos 1) (pos max_output_bytes)
  ok (record {
    check_id = check_id;
    command = command;
    timeout_ms = timeout;
    output_max_bytes = output;
  })

unfoldable pub batch_checks : List Json → Outcome (List ValidationBatchCheck)
unfolding batch_check
batch_checks [] = ok []
batch_checks (j ∷ js) = do c ← batch_check j; cs ← batch_checks js; ok (c ∷ cs)

abbrev pub check_ids : List ValidationBatchCheck → List String
check_ids = map (λ c. c.check_id)

unfoldable pub parse_validation_batch_request : Json → Outcome ValidationBatchRequest
unfolding closed_object at_key equals_int equals_text array batch_checks unique integer
parse_validation_batch_request value = do
  raw ← closed_object request_keys value
  version ← at_key "schema_version" raw
  kind ← at_key "kind" raw
  raise_if (not (equals_int 1 version) || not (equals_text "validation_batch_request" kind))
      value_error
  js ← at_key "checks" raw >>= array
  raise_if (not (leb 1 (length js) && leb (length js) 128)) value_error
  checks ← batch_checks js
  raise_if (not (unique (check_ids checks))) value_error
  maximum ← at_key "max_raw_output_bytes" raw >>= integer (pos 1) (pos max_log_bytes)
  ok (record { checks = checks; max_raw_output_bytes = maximum })

abbrev pub is_some_bytes : Bytes → Bool
is_some_bytes [] = false
is_some_bytes (_ ∷ _) = true

-- `timed_out`, `output_limited`, a negative return code, or the shell's 126 and 127.
unfoldable pub is_stop : ValidationBatchRecord → Bool
is_stop r =
    r.timed_out
    || r.output_limited
    || ltb_ℤ r.returncode (pos 0)
    || r.returncode == pos 126
    || r.returncode == pos 127

-- The test on `records[-1]`.
unfoldable pub ends_stopped : List ValidationBatchRecord → Bool
unfolding is_stop
ends_stopped [] = false
ends_stopped (r ∷ []) = is_stop r
ends_stopped (_ ∷ r ∷ rs) = ends_stopped (r ∷ rs)

module _ ⦃b : Base64⦄ (b64decode : Bytes → Option Bytes) where
  decoded_within : ℕ → Bytes → Option Bytes → Outcome Bytes
  decoded_within limit encoded none = throw value_error
  decoded_within limit encoded (some decoded) = do
    raise_if (not (b.b64encode decoded == encoded) || ltb limit (length decoded)) value_error
    ok decoded

  -- `_b64`
  unfoldable pub b64 : ℕ → Json → Outcome Bytes
  unfolding all decoded_within
  b64 limit (str s) = do
    raise_if (not (all (λ c. ltb c 128) (codes s))) value_error
    decoded_within limit (codes s) (b64decode (codes s))
  b64 limit _ = throw value_error

  -- One pass of the loop of `parse_validation_batch_result`, with the total before it.
  unfoldable pub batch_record : ℕ → ℕ → ℕ → Json → Outcome (ValidationBatchRecord × ℕ)
  unfolding closed_object at_key equals_int flag b64 integer
  batch_record limit index total value = do
    raw ← closed_object record_keys value
    stated ← at_key "index" raw
    raise_if (not (equals_int index stated)) value_error
    timed_out ← at_key "timed_out" raw >>= flag
    output_limited ← at_key "output_limited" raw >>= flag
    started ← at_key "process_started" raw >>= flag
    stdout ← at_key "stdout_b64" raw >>= b64 limit
    stderr ← at_key "stderr_b64" raw >>= b64 limit
    code ← at_key "returncode" raw
    duration ← at_key "duration_ms" raw
    raise_if
        (not started
          && (not timed_out
              || output_limited
              || not (equals_int 0 code)
              || not (equals_int 0 duration)
              || is_some_bytes stdout
              || is_some_bytes stderr))
        value_error
    raise_if (ltb limit (total + (length stdout + length stderr))) value_error
    returncode ← integer (negsuc 254) (pos 255) code
    duration_ms ← integer (pos 0) (pos (max_runtime_ms + 10000)) duration
    ok (
      record {
        index = index;
        returncode = returncode;
        timed_out = timed_out;
        output_limited = output_limited;
        process_started = started;
        duration_ms = duration_ms;
        stdout = stdout;
        stderr = stderr;
      },
      total + (length stdout + length stderr),
    )

  unfoldable pub batch_records : ℕ → ℕ → ℕ → List Json → Outcome (List ValidationBatchRecord)
  unfolding batch_record
  batch_records limit index total [] = ok []
  batch_records limit index total (j ∷ js) = do
    r ← batch_record limit index total j
    rs ← batch_records limit (suc index) r.1 js
    ok (r.0 ∷ rs)

  unfoldable pub parse_validation_batch_result : ℕ → ℕ → Json → Outcome (List ValidationBatchRecord)
  unfolding closed_object at_key equals_int equals_text array batch_records ends_stopped
  parse_validation_batch_result expected_checks limit value = do
    raw ← closed_object result_keys value
    version ← at_key "schema_version" raw
    kind ← at_key "kind" raw
    raise_if (not (equals_int 1 version) || not (equals_text "validation_batch_result" kind))
        value_error
    js ← at_key "records" raw >>= array
    raise_if (not (leb 1 (length js) && leb (length js) expected_checks)) value_error
    records ← batch_records limit 0 0 js
    raise_if (ltb (length records) expected_checks && not (ends_stopped records)) value_error
    ok records

-- The value that `encode_validation_batch_request` prints.
unfoldable pub request_json : ValidationBatchRequest → Json
unfolding from_fields from_items
request_json r = obj (
    from_fields (
      ("schema_version", int (pos 1))
      ∷ ("kind", str "validation_batch_request")
      ∷ ("max_raw_output_bytes", int r.max_raw_output_bytes)
      ∷ ("checks", arr (from_items (map check_json r.checks)))
      ∷ []))
  where
    check_json : ValidationBatchCheck → Json
    check_json c = obj (
        from_fields (
          ("check_id", str c.check_id)
          ∷ ("command", str c.command)
          ∷ ("timeout_ms", int c.timeout_ms)
          ∷ ("output_max_bytes", int c.output_max_bytes)
          ∷ []))
