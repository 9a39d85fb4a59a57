-- ===== src/System.antt =====
-- The demo of the design system, docs/design/system/assets, whose adivento.js is an older copy of the
-- application's; docs/design/system/dist has the same file.
pub mod Theme
