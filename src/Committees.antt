-- ===== src/Committees.antt =====
-- src/ic_govmind_frontend/src/components/tabs/CommitteesTab.jsx: the committees of a DAO.
pub mod Kinds
pub mod Form
pub mod Dashboard
mod Tests
