-- ===== src/Syscall.antt =====
-- kern/syscall_all.c. A handler that does not return, because it leaves through `schedule`, gives
-- `none`; one that returns gives its result. User memory is an argument where it is read.
pub mod Range
pub mod Memory
pub mod Process
pub mod Ipc
pub mod Dispatch
