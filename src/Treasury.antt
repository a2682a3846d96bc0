-- ===== src/Treasury.antt =====
-- src/ic_govmind_frontend/src/components/tabs/TreasuryTab.jsx: the treasury of a DAO.
pub mod Wallet
pub mod Transfer
pub mod Doubles
pub mod Whole
pub mod Prices
pub mod Assets
pub mod Health
mod Tests
