-- ===== src/Wireframe.antt =====
-- The wireframes of docs/design/wireframes/v2: the kit of drawn parts and the chrome around screens.
pub mod Kit
pub mod Dark
pub mod Active
pub mod Alt
mod Tests
