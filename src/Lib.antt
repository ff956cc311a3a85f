-- ===== src/Lib.antt =====
-- The agent loop: an author model writes a candidate, a policy decides what of it counts, validations
-- run in a sandbox, a critic model reviews, and a state machine decides whether the loop goes on. This
-- library models the decisions of that loop, in src/agent_loop, and proves what they promise.
--
-- The parts, with their sources under src/agent_loop:
--   Errors        errors.py: `StopReason`, `ExitCode`, `exit_code_for`.
--   StateMachine  state_machine.py: `FatalLatch`, `RoundObservation`, `decide`. `decide` mutates the
--                 latch; here it takes the latch and returns it with the decision.
--   Paths         models.py and path policy: `validate_subject_path` (Paths), `_component_glob_match`
--                 (Paths.Glob), `PathPolicy` and `classify` (Paths.Policy).
--   Manifest      models.py, manifests.py and constants.py: entries and scan records (Entry), changes
--                 (Change), `Limits` (Limits), `SubjectManifest` (Subject), `diff_manifests` (Diff),
--                 `verify_manifest_blobs` (Blobs), `build_manifest_from_scan` (Scan),
--                 `canonical_bytes` (Canonical), `to_json_obj` (Document) and `reconcile_candidate`
--                 (Reconcile).
--   Validation    validation.py (Execution, Classify, Mutation), declassify.py (Declassify, with the
--                 forms of a secret described apart from the code in its children) and
--                 validation_batch.py (Batch).
--   Critic        schemas.py: the field checks on JSON values (Json), `validate_critic_review` (Review).
--   Progress      progress.py: the canonical state of a round and `StallDetector.observe`.
--   Prompts       prompts.py: the ledger's items and the author's prompts, `_entry_descriptor` and the other
--                 descriptors (Bundle), and `build_review_bundle` (Review).
--   Runner        runner.py: the settings, the guards around a validation, the subjects of the
--                 opaque-independence check; the scans for credentials (Secrets, Scans); what is made of
--                 turns (Turns); the requests, answers, journal calls and adapters (World);
--                 `_journal_validation_attempt` and `_prove_opaque_validation_independence` (Validations);
--                 the arguments and values of `run` (Inputs); `run` up to a round's validation (Loop), from
--                 the critic on (Rounds), and its handlers (Handlers). Contract says what a run owes to its
--                 adapters.
-- A reconciliation takes two manifests and a policy: it compares the manifests, refuses a delta with a
-- protected path, and builds the authoritative manifest. A validation of it is compared with the
-- baseline, and may not have changed it. The critic's review and the validation's outcome make the
-- round's observation, on which `decide` acts. `run` does this in rounds: it asks the author for a
-- candidate, reconciles and publishes it, validates it and a counterfactual, shows the critic a bundle, and
-- decides; its handlers turn what is raised into a result.
--
-- How code is read. An exception is a value: `Except` of Prelude.Exceptions keeps an `AgentLoopError`,
-- of which only the reason is kept, apart from the built-in exceptions. A class whose `__post_init__`
-- checks its fields is a record with a function of the class's name in snake_case that returns the
-- record or raises; `isinstance` checks are discharged by typing. Bytes are lists of numbers, and a
-- dict is an association list in insertion order. Times are floats that are only compared and added; they
-- are integers here, in any unit. Limits are unbounded integers in Python, so there is no wrap-around.
-- Loops recurse on the list that they read; the rounds recurse on the rounds that are left, and the scan
-- for credentials on the visits that are left, of which the source allows 1,000,000 before it fails.
-- An action of the runner takes and returns its local variables and the state of the adapters, also where
-- it raises. An `AgentLoopError` carries its detail there; where a part that keeps only reasons fails, the
-- detail is a given function of the reason.
--
-- Parameters, for code outside the repository: `fnmatch.fnmatchcase` (`ComponentMatch`), `hashlib.sha256`
-- (`Digest`), `json.dumps` and `bytes.decode` (`Codecs`), base64 (`Base64`, and `b64decode` of
-- Validation.Batch), and what is white space to `str.strip` (`Unicode`). Behind the source's protocols, and
-- parameters too, are the blob store (`BlobReader`, `BlobWriter`) and the clock, the models, the validator,
-- the journal and the other arguments of `LoopRunner` (`Adapters`). No law of theirs is assumed but in the
-- hypotheses of a theorem.
--
-- Not modelled: the JSON text parser, so reviews and batches start at the parsed value, in whose strings
-- no lone surrogate occurs; reading a manifest from JSON; most message texts; `ArtifactRunJournal`, which
-- writes the journal's documents; the clients of the models, credentials, git, the file system and the
-- sandbox, which are I/O; a clock that raises, and a
-- `BaseException` other than `KeyboardInterrupt`, such as `SystemExit`, which no handler of `run` takes.
pub mod Prelude
pub mod Errors
pub mod StateMachine
pub mod Paths
pub mod Manifest
pub mod Validation
pub mod Critic
pub mod Progress
pub mod Prompts
pub mod Runner
pub mod Tests
