-- ===== src/Critic.antt =====
-- The critic's review: schemas.py, and its JSON form in runner.py.
pub mod Json
pub mod Review
pub mod Meaning
pub mod RoundTrip
