-- ===== src/Assistant.antt =====
-- src/ic_govmind_frontend/src: the assistant that drafts, analyses and debates proposals, from the
-- calls of the canisters to the page.
pub mod Service
pub mod Copilot
pub mod Analysis
pub mod Panel
pub mod Report
pub mod Submission
mod Tests
