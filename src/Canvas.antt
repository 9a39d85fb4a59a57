-- ===== src/Canvas.antt =====
-- The design canvas of docs/design/wireframes/v2/design-canvas.jsx: sections of artboards that the
-- user renames, reorders, deletes and focuses.
pub mod Drag
pub mod Export
pub mod Focus
pub mod Menu
pub mod Order
pub mod Persist
pub mod View
pub mod Viewport
