-- ===== src/Auth.antt =====
-- src/ic_govmind_frontend/src/hooks/useAuthClient.jsx: who is logged in.
pub mod Session
mod Tests
