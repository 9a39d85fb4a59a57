-- ===== src/React.antt =====
-- The React components of docs/design/system/react that compute something.
pub mod Charts
pub mod Atoms
pub mod Market
pub mod Theme
