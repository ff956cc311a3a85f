-- ===== src/Manifest.antt =====
-- The subject manifest: models.py (entries and changes) and manifests.py.
pub mod Entry
pub mod Change
pub mod Limits
pub mod Subject
pub mod Canonical
pub mod Document
pub mod Diff
pub mod Blobs
pub mod Scan
pub mod Reconcile
