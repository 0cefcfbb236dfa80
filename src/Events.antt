-- ===== src/Events.antt =====
-- myts.c: the timers and the event loop.
pub mod Timers
pub mod Loop
pub mod Rounds
mod Tests
