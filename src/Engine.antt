-- ===== src/Engine.antt =====
-- The program myts-ng in C++: main.cpp, and the headers of app, core, display, graphics, help, input
-- and terminal.
pub mod App
pub mod Buffer
pub mod Display
pub mod Font
pub mod Geometry
pub mod Help
pub mod Input
pub mod Parser
pub mod Pixmap
pub mod Render
pub mod Run
pub mod Session
pub mod Startup
mod Tests
