-- ===== src/Tests.antt =====
-- Examples: the theorems at concrete inputs.
pub mod Machine
pub mod Booting
pub mod Disk
pub mod Swapping
pub mod Mapping
pub mod Running
pub mod Calls
pub mod Pipes
pub mod Printing
pub mod Files
pub mod Descriptors
pub mod Loading
pub mod Serving
pub mod Shell
pub mod Formatting
