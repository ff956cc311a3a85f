-- ===== src/Runner/Secrets.antt =====
-- The scans for credential bytes of runner.py: `_json_tree_contains_known_secret` and its callers.
-- `json.dumps(...).encode("ascii")` in its canonical form and `bytes.decode` are the standard library's,
-- and parameters.
pub mod Parts
use codex_claude_author_crit.Prelude.{
  ℕ, zero, suc, ◌+◌, String, Bool, true, false, Option, none, some, List, [], ◌∷◌, ◌++◌, ◌||◌, map,
  reverse, any, ok, fail, ◌>>=◌, ◌>>◌, if◌then◌else◌,
}
use codex_claude_author_crit.Prelude.Bytes.{Bytes}
use codex_claude_author_crit.Prelude.Text.{utf8}
use codex_claude_author_crit.Errors.{Outcome, StopReason}
use codex_claude_author_crit.Critic.Json.{Json, str, arr, obj, items, fields}
use codex_claude_author_crit.Validation.Declassify.{
  Base64, KnownSecret, raw_log_contains_known_secret,
}
use codex_claude_author_crit.Manifest.Entry.{Digest, ManifestEntry}
use codex_claude_author_crit.Manifest.Subject.{SubjectManifest}
use codex_claude_author_crit.Manifest.Blobs.{BlobReader}
use codex_claude_author_crit.Manifest.Document.{to_json_obj}

pub record Codecs : Type 0 where
  pub json_bytes : Json → Bytes
  -- `data.decode("utf-8", "strict")`, and nothing where it raises.
  pub decode_utf8 : Bytes → Option String

-- A decoded value: a JSON value, raw bytes, or a tuple of such.
mutual
  pub data Tree : Type 0 where
    json : Json → Tree
    raw : Bytes → Tree
    tuple : Trees → Tree

  pub data Trees : Type 0 where
    nil : Trees
    cons : Tree → Trees → Trees

unfoldable pub trees : Trees → List Tree
trees nil = []
trees (cons t ts) = t ∷ trees ts

abbrev pub keys_json : List (String × Json) → List Tree
keys_json = map (λ kv. json (str kv.0))

abbrev pub values_json : List (String × Json) → List Tree
values_json = map (λ kv. json kv.1)

-- What a value pushes on the stack, the last one first, as `pop` takes them.
unfoldable pub children : Tree → List Tree
unfolding trees items fields
children (json (arr js)) = reverse (map json (items js))
children (json (obj fs)) = reverse (keys_json (fields fs) ++ values_json (fields fs))
children (tuple ts) = reverse (trees ts)
children _ = []

abbrev pub max_visited : ℕ
max_visited = 1_000_000

module _ ⦃b : Base64⦄ (secrets : List KnownSecret) where
  -- A text or bytes that contains a secret.
  unfoldable pub leaf_hit : Tree → Bool
  unfolding raw_log_contains_known_secret utf8
  leaf_hit (json (str s)) = raw_log_contains_known_secret (utf8 s) secrets
  leaf_hit (raw bytes) = raw_log_contains_known_secret bytes secrets
  leaf_hit _ = false

  -- The loop, with the number of visits that are left. The head of the list is the stack's top.
  unfoldable pub scan : ℕ → List Tree → Outcome Bool
  unfolding leaf_hit children
  scan left [] = ok false
  scan zero (t ∷ stack) = fail StopReason.agent_output_limit
  scan (suc left) (t ∷ stack) =
      let rest = scan left (children t ++ stack) in if leaf_hit t then ok true else rest

  unfoldable pub json_tree_contains_known_secret : Tree → Outcome Bool
  unfolding scan
  json_tree_contains_known_secret t = scan max_visited (t ∷ [])

  option_hit : Option Bytes → Bool
  option_hit none = false
  option_hit (some bytes) = raw_log_contains_known_secret bytes secrets

  module _ ⦃d : Digest⦄ ⦃j : Codecs⦄ where
    -- `manifest.to_json_bytes()` ends its line.
    unfoldable pub to_json_bytes : SubjectManifest → Outcome Bytes
    unfolding to_json_obj
    to_json_bytes m = do document ← to_json_obj m; ok (j.json_bytes document ++ 10 ∷ [])

    unfoldable pub manifest_metadata_contains_known_secret : SubjectManifest → Outcome Bool
    unfolding to_json_bytes raw_log_contains_known_secret option_hit any
    manifest_metadata_contains_known_secret m = do
      bytes ← to_json_bytes m
      ok (
          raw_log_contains_known_secret bytes secrets
          || any
              (λ (e : ManifestEntry).
                raw_log_contains_known_secret e.path secrets || option_hit e.symlink_target)
              m.entries)

    module _ (blobs : BlobReader) where
      content_hit : Option Bytes → Option String → Outcome Bool
      unfolding raw_log_contains_known_secret
      content_hit (some target) digest = ok (raw_log_contains_known_secret target secrets)
      content_hit none (some digest) = do
        content ← blobs.read_blob digest
        ok (raw_log_contains_known_secret content secrets)
      content_hit none none = ok false

      unfoldable pub entries_hit : List ManifestEntry → Outcome Bool
      unfolding content_hit raw_log_contains_known_secret
      entries_hit [] = ok false
      entries_hit (e ∷ es) =
          let rest = entries_hit es in
          if raw_log_contains_known_secret e.path secrets
          then ok true
          else content_hit e.symlink_target e.blob_sha256 >>= λ hit. if hit then ok true else rest

      unfoldable pub manifest_contains_known_secret : SubjectManifest → Outcome Bool
      unfolding to_json_bytes entries_hit
      manifest_contains_known_secret m = do
        bytes ← to_json_bytes m
        if raw_log_contains_known_secret bytes secrets then ok true else entries_hit m.entries
