-- ===== src/Mmu.antt =====
-- include/mmu.h: the fields of virtual addresses and page table entries, the flags, and the layout
-- of the address space. A flag is named by its bit position.
use buaa_mos_with_swap.Prelude.{ℕ, ◌+◌, ◌-◌, ◌*◌, ◌/◌, ◌%◌, ◌^◌}

abbrev pub page_size : ℕ
page_size = 4096

abbrev pub word_mod : ℕ
word_mod = 2 ^ 32

abbrev pub pdmap : ℕ
pdmap = 4 * 1024 * 1024

abbrev pub nasid : ℕ
nasid = 256

-- `PDX`, `PTX`, `PPN` and `VPN`, `PTE_ADDR`, `PTE_FLAGS` on 32-bit words.
abbrev pub pdx : ℕ → ℕ
pdx va = va / 2 ^ 22 % 1024

abbrev pub ptx : ℕ → ℕ
ptx va = va / 2 ^ 12 % 1024

abbrev pub ppn : ℕ → ℕ
ppn pa = pa / 2 ^ 12

abbrev pub pte_addr : ℕ → ℕ
pte_addr pte = pte / 4096 * 4096

abbrev pub pte_flags : ℕ → ℕ
pte_flags pte = pte % 4096

-- The bit positions of `PTE_G`, `PTE_V`, `PTE_D`, `PTE_SWAPPED`; `PTE_C_CACHEABLE` is two bits.
abbrev pub pte_swapped : ℕ
pte_swapped = 3

abbrev pub pte_g : ℕ
pte_g = 6

abbrev pub pte_v : ℕ
pte_v = 7

abbrev pub pte_d : ℕ
pte_d = 8

abbrev pub pte_c_cacheable : ℕ
pte_c_cacheable = 0x600

abbrev pub ulim : ℕ
ulim = 0x80000000

abbrev pub uvpt : ℕ
uvpt = ulim - pdmap

abbrev pub upages : ℕ
upages = uvpt - pdmap

abbrev pub uenvs : ℕ
uenvs = upages - pdmap

abbrev pub utop : ℕ
utop = uenvs

abbrev pub uxstacktop : ℕ
uxstacktop = utop

abbrev pub ustacktop : ℕ
ustacktop = utop - 2 * page_size

abbrev pub utext : ℕ
utext = pdmap

abbrev pub ucow : ℕ
ucow = utext - page_size

abbrev pub utemp : ℕ
utemp = ucow - page_size

-- `sizeof(struct Page)`, and the size of a list head, one pointer.
abbrev pub sizeof_page : ℕ
sizeof_page = 20

abbrev pub sizeof_head : ℕ
sizeof_head = 4

-- `ROUND(a, n)` of include/types.h, which is exact where `n` is a power of two; the sum wraps.
abbrev pub round : ℕ → ℕ → ℕ
round a n = (a + n - 1) % word_mod / n * n
