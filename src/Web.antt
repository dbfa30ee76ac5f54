-- ===== src/Web.antt =====
-- internal/web: the requests that change the program's state.
pub mod Limiter
pub mod Requests
pub mod Rate
pub mod Reports
mod Tests
