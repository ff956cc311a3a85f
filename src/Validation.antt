-- ===== src/Validation.antt =====
-- The validation of a subject: validation.py and declassify.py.
pub mod Execution
pub mod Classify
pub mod Mutation
pub mod Declassify
pub mod Batch
