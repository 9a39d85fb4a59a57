-- ===== src/Adivento.antt =====
-- app/assets/javascripts/adivento.js: one module for each object of `window.Adivento`.
pub mod Sheet
pub mod Live
pub mod Theme
pub mod Segments
pub mod Chart
pub mod Orderbook
pub mod Ticket
pub mod Boot
