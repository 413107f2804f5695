-- ===== src/Timer.antt =====
-- The timers of an event loop.
pub mod TimerQueue
