-- ===== src/Tests/Loops.antt =====
-- Runs of the loop with adapters that keep a record of what they are asked.
use codex_claude_author_crit.Runner.Handlers.{handle}
use codex_claude_author_crit.Runner.Handlers.{deadline_of}
use codex_claude_author_crit.Critic.Json.{is_blank}
use codex_claude_author_crit.Manifest.Change.{classify_change}
use codex_claude_author_crit.Manifest.Change.{classify_each}
use codex_claude_author_crit.Runner.World.{set_locals}
use codex_claude_author_crit.Runner.World.{get_locals}
use codex_claude_author_crit.Prelude.Bytes.Order.{ancestors}
use codex_claude_author_crit.Manifest.Subject.{build}
use codex_claude_author_crit.Prelude.{
  ℕ, ◌≡◌, refl, true, false, none, some, List, [], ◌∷◌, ◌==◌, list_eq, nat_eq, All, ok, fail, throw,
  assertion_error, list_beq, option_beq,
}
use codex_claude_author_crit.Prelude.Bytes.{codes}
use codex_claude_author_crit.Prelude.Int.{pos, ◌+ℤ◌, ℤ_beq}
use codex_claude_author_crit.Errors.{ExitCode, StopReason, exit_code_for}
use codex_claude_author_crit.StateMachine.{Verdict}
use codex_claude_author_crit.Paths.Glob.{ComponentMatch, component_glob_match}
use codex_claude_author_crit.Paths.Policy.{PathPolicy, classify}
use codex_claude_author_crit.Paths.{validate_subject_path}
use codex_claude_author_crit.Manifest.Diff.{diff_manifests}
use codex_claude_author_crit.Validation.Mutation.{verify_validation_mutation}
use codex_claude_author_crit.Manifest.Entry.{
  Digest, ManifestEntry, regular, regular_mode, entry_beq,
}
use codex_claude_author_crit.Manifest.Limits.{default_limits}
use codex_claude_author_crit.Manifest.Subject.{SubjectManifest}
use codex_claude_author_crit.Validation.Execution.{CheckExecution}
use codex_claude_author_crit.Validation.Declassify.{Base64}
use codex_claude_author_crit.Critic.Json.{Unicode, null}
use codex_claude_author_crit.Critic.Review.{CriticReview}
use codex_claude_author_crit.Runner.{ValidationTurn, loop_settings, ensure_deadline}
use codex_claude_author_crit.Runner.Inputs.{Texts, Run, prepare}
use codex_claude_author_crit.Runner.Secrets.{Codecs}
use codex_claude_author_crit.Runner.World.{
  AuthorRequest, AuthorTurn, CriticRequest, CriticTurn, Entry, LoopResult, Adapters, World, Action,
  interrupt, ◌>>=◌, call, pure, lift, raise_when,
}
use codex_claude_author_crit.Runner.Handlers.{run, first_locals}
use codex_claude_author_crit.Runner.Rounds.{body_then}
use codex_claude_author_crit.Runner.Handlers.Errors.{IsReported, handle_reports}
use codex_claude_author_crit.Runner.Rounds.Last.{body_then_ends}
use codex_claude_author_crit.Runner.Handlers.Returns.{run_returns}
use codex_claude_author_crit.Runner.Contract.{
  MayAuthor, MayReview, MayPublish, MayRecord, Keeps, IsConsistent,
}
use codex_claude_author_crit.Runner.Contract.Whole.{run-Keeps, run-IsConsistent}

abbrev exact : ComponentMatch
exact = record { fnmatchcase = λ c p. c == p }

abbrev plain : Base64
plain = record { b64encode = λ value. value; urlsafe_b64encode = λ value. value }

abbrev one_digest : Digest
one_digest = record { sha256_hex = λ content. "02" }

abbrev braces : Codecs
braces = record { json_bytes = λ document. codes "{}"; decode_utf8 = λ content. some "text" }

abbrev ascii : Unicode
ascii = record { is_space = λ c. c == b' ' }

abbrev policy : PathPolicy
policy = record {
  protected_patterns = codes "keys" ∷ [];
  discard_only_patterns = codes "out" ∷ [];
  opaque_nonsemantic_patterns = [];
  protected_opt_in_patterns = [];
}

abbrev file : List ℕ → ManifestEntry
file path = record {
  path = path;
  kind = regular;
  mode = regular_mode;
  size = some (pos 1);
  blob_sha256 = some "02";
  symlink_target = none;
  target_sha256 = none;
}

abbrev base : SubjectManifest
base = record { entries = file (codes "keys") ∷ []; schema_version = 1 }

abbrev candidate : SubjectManifest
candidate = record { entries = file (codes "keys") ∷ file (codes "main") ∷ []; schema_version = 1 }

abbrev unit_check : CheckExecution
unit_check = record {
  check_id = "unit";
  command = "make test";
  started_at = pos 1;
  completed_at = pos 2;
  exit_code = some (pos 0);
  signal = none;
  timed_out = false;
  infrastructure_failure = false;
  process_started = true;
  output_limited = false;
}

abbrev validated : SubjectManifest → ValidationTurn
validated subject = record {
  summary = record { schema_version = 1; subject_fingerprint = "02"; checks = unit_check ∷ [] };
  result_manifest = subject;
  raw_log = codes "ok";
}

abbrev written : AuthorTurn
written = record {
  candidate = candidate;
  thread_id = "t1";
  final_message = "done";
  events = [];
  usage = none;
  observed_model = none;
  observed_effort = none;
}

abbrev approval : CriticReview
approval = record {
  schema_version = 1;
  verdict = Verdict.lgtm;
  summary = "fine";
  blocked_reason = none;
  blocking_findings = [];
  non_blocking_findings = [];
}

abbrev reviewed : CriticTurn
reviewed = record {
  review = approval;
  completed_at = pos 5;
  envelope = null;
  total_cost_usd = none;
  observed_model = none;
  observed_effort = none;
}

-- A call whose arguments the contract is about.
data Event : Type 0 where
  authored : AuthorRequest → Event
  asked : CriticRequest → Event
  published : SubjectManifest → Event
  recorded : Entry → Event

abbrev recorder : Adapters (List Event)
recorder = record {
  clock = λ s. (pos 1, s);
  author = λ q s. (ok written, authored q ∷ s);
  validate = λ q s. (ok (validated q.subject), s);
  review = λ q s. (ok reviewed, asked q ∷ s);
  journal = λ e s. (ok tt, recorded e ∷ s);
  integrity_guard = λ subject s. (ok tt, s);
  publish_subject = λ subject s. (ok tt, published subject ∷ s);
  known_secret_provider = λ s. (ok [], s);
  pending_metadata = λ secrets s. (ok false, s);
  is_artifact_journal = true;
  blobs = record { read_blob = λ name. ok (7 ∷ []) };
  policy = policy;
  known_secrets = record { identifier = "token"; value = codes "s3cret" } ∷ [];
}

-- The same without secrets.
abbrev quiet : Adapters (List Event)
quiet = record recorder { known_secrets = [] }

abbrev texts : Texts
texts = record { detail = λ reason. "failed" }

abbrev two_rounds : Run
two_rounds = record {
  task = "fix";
  base = base;
  settings = record {
    max_rounds = pos 2;
    max_runtime_seconds = pos 100;
    protected_patterns = [];
    opaque_patterns = [];
    context_paths = [];
    requested_author_model = none;
    requested_author_effort = none;
    requested_critic_model = none;
    requested_critic_effort = none;
    max_raw_log_bytes = pos 1000;
    limits = default_limits;
  };
  prepared_baseline = none;
  monotonic_deadline = none;
  journal_prestarted = false;
}

abbrev converged : LoopResult
converged = record {
  exit_code = ExitCode.success;
  stop_reason = StopReason.converged;
  rounds_completed = 1;
  subject = candidate;
  thread_id = some "t1";
  detail = "all validations passed and critic returned LGTM";
}

run_converges :
    (run ⦃m = exact⦄ ⦃b = plain⦄ ⦃d = one_digest⦄ ⦃j = braces⦄ ⦃u = ascii⦄ quiet texts two_rounds
      []).0
    ≡ ok converged
unfolding run ◌+ℤ◌ ◌>>=◌ call pure lift list_beq raise_when ensure_deadline ℤ_beq
    verify_validation_mutation diff_manifests entry_beq option_beq classify validate_subject_path
    component_glob_match build ancestors get_locals set_locals classify_each classify_change
    is_blank exit_code_for
run_converges = refl

run-IsConsistent_example : IsConsistent two_rounds converged
run-IsConsistent_example =
    run-IsConsistent ⦃m = exact⦄ ⦃b = plain⦄ ⦃d = one_digest⦄ ⦃j = braces⦄ ⦃u = ascii⦄ quiet texts
      two_rounds [] run_converges

-- The contract of an event.
abbrev IsAllowed : Event → Type 0
IsAllowed (authored q) = MayAuthor ⦃m = exact⦄ ⦃b = plain⦄ recorder two_rounds q
IsAllowed (asked q) = MayReview ⦃m = exact⦄ ⦃b = plain⦄ recorder two_rounds q
IsAllowed (published subject) = MayPublish ⦃m = exact⦄ ⦃b = plain⦄ recorder two_rounds subject
IsAllowed (recorded e) = MayRecord ⦃m = exact⦄ ⦃b = plain⦄ recorder two_rounds e

keeps_IsAllowed : Keeps ⦃m = exact⦄ ⦃b = plain⦄ recorder two_rounds (All IsAllowed)
keeps_IsAllowed = record {
  clock = λ s h. h;
  author = λ q may s h. (may, h);
  validate = λ q s h. h;
  review = λ q may s h. (may, h);
  journal = λ e may s h. (may, h);
  integrity_guard = λ subject s h. h;
  publish_subject = λ subject may s h. (may, h);
  known_secret_provider = λ s h. h;
  pending_metadata = λ secrets s h. h;
}

run-Keeps_example :
    All IsAllowed
      (run ⦃m = exact⦄ ⦃b = plain⦄ ⦃d = one_digest⦄ ⦃j = braces⦄ ⦃u = ascii⦄ recorder texts
        two_rounds []).1
run-Keeps_example =
    run-Keeps ⦃m = exact⦄ ⦃b = plain⦄ ⦃d = one_digest⦄ ⦃j = braces⦄ ⦃u = ascii⦄ recorder texts
      two_rounds keeps_IsAllowed [] tt

settings_accepted : loop_settings two_rounds.settings ≡ ok two_rounds.settings
unfolding loop_settings
settings_accepted = refl

abbrev first_world : World (List Event)
first_world = record { locals = first_locals two_rounds "go"; outside = [] }

abbrev interrupted : Action (List Event) LoopResult
interrupted w = (fail interrupt, w)

abbrev broken : Action (List Event) LoopResult
broken w = (throw assertion_error, w)

body_then_ends_example :
    body_then ⦃m = exact⦄ ⦃b = plain⦄ ⦃d = one_digest⦄ ⦃j = braces⦄ ⦃u = ascii⦄ recorder texts
      two_rounds
      (pos 50)
      broken
      first_world
    ≡ body_then ⦃m = exact⦄ ⦃b = plain⦄ ⦃d = one_digest⦄ ⦃j = braces⦄ ⦃u = ascii⦄ recorder texts
        two_rounds
        (pos 50)
        interrupted
        first_world
body_then_ends_example =
    body_then_ends ⦃m = exact⦄ ⦃b = plain⦄ ⦃d = one_digest⦄ ⦃j = braces⦄ ⦃u = ascii⦄ recorder texts
      two_rounds (pos 50) broken interrupted first_world settings_accepted

-- An author that raises a `KeyboardInterrupt`.
abbrev stopped : Adapters (List Event)
stopped = record recorder { author = λ q s. (fail interrupt, s) }

run_returns_example :
    (result : LoopResult) × ((run ⦃m = exact⦄ ⦃b = plain⦄ ⦃d = one_digest⦄ ⦃j = braces⦄ ⦃u = ascii⦄
        stopped texts two_rounds []).0
      ≡ ok result)
unfolding prepare ◌+ℤ◌ deadline_of
run_returns_example =
    run_returns ⦃m = exact⦄ ⦃b = plain⦄ ⦃d = one_digest⦄ ⦃j = braces⦄ ⦃u = ascii⦄ stopped texts
      two_rounds (λ result s. tt) (λ s. tt) [] refl

abbrev late : LoopResult
late = record {
  exit_code = ExitCode.timeout;
  stop_reason = StopReason.author_timeout;
  rounds_completed = 0;
  subject = base;
  thread_id = none;
  detail = "late";
}

handle_reports_example :
    IsReported ⦃m = exact⦄ ⦃b = plain⦄ ⦃d = one_digest⦄ ⦃j = braces⦄ ⦃u = ascii⦄ quiet texts
      two_rounds
      (pos 50)
      StopReason.author_timeout
      "late"
      late
unfolding handle ◌>>=◌ call pure get_locals exit_code_for
handle_reports_example =
    handle_reports ⦃m = exact⦄ ⦃b = plain⦄ ⦃d = one_digest⦄ ⦃j = braces⦄ ⦃u = ascii⦄ quiet texts
      two_rounds (pos 50) StopReason.author_timeout "late" first_world refl
