-- ===== src/Researcher.antt =====
-- internal/agent/researcher: the options, the rounds of search, and the review loop of one
-- sub-question.
pub mod Options
pub mod Dedup
pub mod Collect
pub mod Attempts
mod Samples
