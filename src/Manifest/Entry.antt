-- ===== src/Manifest/Entry.antt =====
-- `ManifestEntry` and `ScanRecord` of models.py. SHA-256 is the standard library's, and a parameter.
pub mod Shape
use codex_claude_author_crit.Prelude.{
  ℕ, String, Bool, true, false, Option, none, some, [], ◌==◌, ◌&&◌, ◌||◌, not, all, elem, length,
  Eq, nat_eq, string_eq, list_eq, option_eq, ok, throw, value_error, type_error, ◌>>◌, raise_if,
  ◌≡◌, ◌↔◌, arith, list_beq_iff, option_beq_iff, if◌then◌else◌,
}
use codex_claude_author_crit.Prelude.Bytes.{Bytes, codes}
use codex_claude_author_crit.Prelude.Int.{ℤ, pos, ltb_ℤ, ℤ_eq}
use codex_claude_author_crit.Errors.{Outcome}
use codex_claude_author_crit.Paths.{validate_subject_path}

pub record Digest : Type 0 where
  pub sha256_hex : Bytes → String

pub data EntryKind : Type 0 where
  regular symlink : EntryKind

pub is_regular : EntryKind → Bool
is_regular regular = true
is_regular symlink = false

abbrev pub regular_mode : ℕ
regular_mode = 0o100644

abbrev pub executable_mode : ℕ
executable_mode = 0o100755

abbrev pub symlink_mode : ℕ
symlink_mode = 0o120000

pub record ManifestEntry : Type 0 where
  pub path : Bytes
  pub kind : EntryKind
  pub mode : ℕ
  pub size : Option ℤ
  pub blob_sha256 : Option String
  pub symlink_target : Option Bytes
  pub target_sha256 : Option String

is_hex_digit : ℕ → Bool
is_hex_digit c = elem c (codes "0123456789abcdef")

-- `_validate_sha256`
unfoldable pub validate_sha256 : String → Outcome (Unit {0})
unfolding all is_hex_digit elem
validate_sha256 value =
    raise_if (not (length (codes value) == 64) || not (all is_hex_digit (codes value))) value_error

abbrev is_some {ℓ} : {A : Type ℓ} → Option A → Bool
is_some none = false
is_some (some _) = true

size_is_bad : Option ℤ → Bool
size_is_bad none = true
size_is_bad (some n) = ltb_ℤ n (pos 0)

require_sha256 : Option String → Outcome (Unit {0})
unfolding validate_sha256
require_sha256 none = throw value_error
require_sha256 (some value) = validate_sha256 value

module _ ⦃d : Digest⦄ where
  unfoldable pub check_regular : ManifestEntry → Outcome ManifestEntry
  unfolding require_sha256 size_is_bad
  check_regular e = do
    raise_if (not (e.mode == regular_mode || e.mode == executable_mode)) value_error
    raise_if (size_is_bad e.size) value_error
    require_sha256 e.blob_sha256
    raise_if (is_some e.symlink_target || is_some e.target_sha256) value_error
    ok e

  check_target : Bytes → Option String → Outcome (Unit {0})
  unfolding validate_sha256
  check_target target none = throw value_error
  check_target target (some digest) = do
    validate_sha256 digest
    raise_if (not (d.sha256_hex target == digest)) value_error

  check_literal : Option Bytes → Option String → Outcome (Unit {0})
  unfolding check_target elem
  check_literal none digest = throw type_error
  check_literal (some target) digest = do
    raise_if (target == []) value_error
    raise_if (elem 0 target) value_error
    check_target target digest

  unfoldable pub check_symlink : ManifestEntry → Outcome ManifestEntry
  unfolding check_literal
  check_symlink e = do
    raise_if (not (e.mode == symlink_mode)) value_error
    raise_if (is_some e.size || is_some e.blob_sha256) value_error
    check_literal e.symlink_target e.target_sha256
    ok e

  -- `ManifestEntry.__post_init__`
  unfoldable pub manifest_entry : ManifestEntry → Outcome ManifestEntry
  unfolding check_regular check_symlink is_regular
  manifest_entry e = do
    validate_subject_path e.path
    if is_regular e.kind then check_regular e else check_symlink e

  -- `ManifestEntry.symlink`
  unfoldable pub symlink_entry : Bytes → Bytes → Outcome ManifestEntry
  unfolding manifest_entry
  symlink_entry path target = manifest_entry (record {
    path = path;
    kind = symlink;
    mode = symlink_mode;
    size = none;
    blob_sha256 = none;
    symlink_target = some target;
    target_sha256 = some (d.sha256_hex target);
  })

-- `kind` and `mode` of an entry that a scan may yield.
kind_fits : EntryKind → ℕ → Bool
kind_fits regular mode = mode == regular_mode || mode == executable_mode
kind_fits symlink mode = mode == symlink_mode

pub record ScanRecord : Type 0 where
  pub path : Bytes
  pub kind : EntryKind
  pub mode : ℕ
  pub payload : Bytes

-- `ScanRecord.__post_init__`
unfoldable pub scan_record : ScanRecord → Outcome ScanRecord
unfolding kind_fits
scan_record r = do
  validate_subject_path r.path
  raise_if (not (kind_fits r.kind r.mode)) value_error
  ok r

-- The entries are compared field by field.
unfoldable pub kind_beq : EntryKind → EntryKind → Bool
kind_beq regular regular = true
kind_beq symlink symlink = true
kind_beq _ _ = false

pub record Identity : Type 0 where
  pub kind : EntryKind
  pub mode : ℕ
  pub size : Option ℤ
  pub blob_sha256 : Option String
  pub symlink_target : Option Bytes
  pub target_sha256 : Option String

-- All the fields but the path.
unfoldable pub identity_without_path : ManifestEntry → Identity
identity_without_path e = record {
  kind = e.kind;
  mode = e.mode;
  size = e.size;
  blob_sha256 = e.blob_sha256;
  symlink_target = e.symlink_target;
  target_sha256 = e.target_sha256;
}

unfoldable pub identity_beq : Identity → Identity → Bool
unfolding kind_beq
identity_beq a b =
    kind_beq a.kind b.kind
    && a.mode == b.mode
    && a.size == b.size
    && a.blob_sha256 == b.blob_sha256
    && a.symlink_target == b.symlink_target
    && a.target_sha256 == b.target_sha256

unfoldable pub entry_beq : ManifestEntry → ManifestEntry → Bool
unfolding identity_beq identity_without_path
entry_beq a b = a.path == b.path && identity_beq (identity_without_path a) (identity_without_path b)

kind_beq_iff : (a b : EntryKind) → (kind_beq a b ≡ true) ↔ (a ≡ b)
unfolding kind_beq
kind_beq_iff a b = grind arith

pub identity_beq_iff : (a b : Identity) → (identity_beq a b ≡ true) ↔ (a ≡ b)
unfolding identity_beq
identity_beq_iff a b = ground (
  arith,
  kind_beq_iff a.kind b.kind,
  option_beq_iff a.size b.size,
  option_beq_iff a.blob_sha256 b.blob_sha256,
  option_beq_iff a.symlink_target b.symlink_target,
  option_beq_iff a.target_sha256 b.target_sha256,
)

instance abbrev pub identity_eq : Eq Identity
identity_eq = record { beq = identity_beq; beq_iff = identity_beq_iff }

pub entry_beq_iff : (a b : ManifestEntry) → (entry_beq a b ≡ true) ↔ (a ≡ b)
unfolding entry_beq identity_beq identity_without_path
entry_beq_iff a b = ground (
  arith,
  kind_beq_iff a.kind b.kind,
  list_beq_iff a.path b.path,
  option_beq_iff a.size b.size,
  option_beq_iff a.blob_sha256 b.blob_sha256,
  option_beq_iff a.symlink_target b.symlink_target,
  option_beq_iff a.target_sha256 b.target_sha256,
)

instance abbrev pub entry_eq : Eq ManifestEntry
entry_eq = record { beq = entry_beq; beq_iff = entry_beq_iff }
