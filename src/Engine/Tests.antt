-- ===== src/Engine/Tests.antt =====
-- The C++ program on concrete values.
mod Sessions
mod Screens
mod Keys
mod Surfaces
