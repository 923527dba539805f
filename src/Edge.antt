-- ===== src/Edge.antt =====
-- The edge (edge/): what it writes to the actors and reads from them, and its rate limiter.
pub mod Wire
pub mod RateLimit
pub mod CoreCall
pub mod Headers
pub mod Dispatch
mod Tests
