-- ===== src/Tests.antt =====
-- Runs of the modelled code on concrete values.
mod Rounds
mod Subjects
mod Validations
mod Reviews
mod Loops
mod Bundles
