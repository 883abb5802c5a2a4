-- ===== src/Pmap.antt =====
-- kern/pmap.c and kern/tlbex.c: physical pages, the swap disk, swapping, and page tables.
pub mod Sdisk
pub mod Swap
pub mod Pages
pub mod SwapBack
pub mod Table
pub mod TlbMod
pub mod Driver
