-- ===== src/Env.antt =====
-- kern/env.c: address space identifiers, environment identifiers, and the life of an environment.
pub mod Asid
pub mod Ids
pub mod Life
