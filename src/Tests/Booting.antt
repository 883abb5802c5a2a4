-- ===== src/Tests/Booting.antt =====
-- The theorems on boot time and on lib/string.c at concrete inputs.
use buaa_mos_with_swap.Prelude.{
  ◌+◌, ◌-◌, ◌*◌, ◌/◌, ◌%◌, ◌≡◌, ◌≤◌, inr, ◌&&◌, arith, ltb, leb, if◌then◌else◌,
}
use buaa_mos_with_swap.Mmu.{page_size, ulim}
use buaa_mos_with_swap.Kernel.{Kernel, ok}
use buaa_mos_with_swap.Strings.{Bytes, memset, memcpy}
use buaa_mos_with_swap.Strings.Blocks.{memcpy_lem}
use buaa_mos_with_swap.Boot.{Boot}
use buaa_mos_with_swap.Pmap.Pages.{page_init}
use buaa_mos_with_swap.Pmap.Pages.Initial.{Started, page_init-Started}
use buaa_mos_with_swap.Tests.Machine.{machine}

-- Every byte is its own address.
abbrev ramp : Bytes
ramp a = a % 256

memcpy_lem_example :
    memcpy 21 5 9 ramp 27 ≡ (if leb 21 27 && ltb 27 (21 + 9) then ramp (5 + (27 - 21)) else ramp 27)
memcpy_lem_example = memcpy_lem 21 5 9 ramp 27 (λ a. omega arith) (inr (omega arith))

abbrev booting : Boot
booting = record {
  memsize = 0x4000000;
  npage = 0x4000;
  freemem = 0;
  end = 0x80030010;
  pages = 0;
  bytes = ramp;
}

abbrev booted : Boot
booted = record booting { freemem = 0x80031064; bytes = memset 0x80031000 0 100 ramp }

-- The boot allocator of a machine with 16 pages, of which the kernel takes the first.
abbrev small_boot : Boot
small_boot = record {
  memsize = 0x10000;
  npage = 16;
  freemem = 0x80001000;
  end = 0x80000800;
  pages = 0x80000800;
  bytes = ramp;
}

page_init-Started_example :
    (c : Boot) × (t : Kernel) × (page_init small_boot machine ≡ ok c t)
    × (c.freemem % page_size ≡ 0)
    × (0x80001000 + 16 * 4 + 8192 ≤ c.freemem)
    × Started ((c.freemem - ulim) / page_size) machine t
page_init-Started_example =
    page_init-Started small_boot machine (omega arith) (omega arith) (omega arith) (omega arith)
