-- ===== src/User.antt =====
-- The user library under user/lib/.
pub mod Pipe
pub mod Shell
pub mod Fd
