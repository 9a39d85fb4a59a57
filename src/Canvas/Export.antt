-- ===== src/Canvas/Export.antt =====
-- `dcExport` of docs/design/wireframes/v2/design-canvas.jsx: the picture or the page that an
-- artboard is saved as.
pub mod Clone
pub mod File
pub mod Fonts
pub mod Urls
