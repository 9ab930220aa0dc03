-- ===== src/Engagement/Counters.antt =====
-- The cached counters of a post are exact, and every operation keeps them so.
pub mod Statements
pub mod Operations
pub mod Services
pub mod Reconcile
