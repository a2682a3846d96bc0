-- ===== src/CreateDao.antt =====
-- src/ic_govmind_frontend/src/pages/CreateDaoPage.jsx: the form that creates a DAO.
pub mod Form
pub mod Wizard
pub mod Request
pub mod Submit
mod Tests
