-- ===== src/Workers.antt =====
-- workers: the pool that bounds how many jobs run at once.
pub mod Pool
pub mod Bounded
mod Examples
