-- ===== src/Pmap/Driver.antt =====
-- The register driver of the swap disk in kern/pmap.c: `wait_sd_ready`, `sd_read` and `sd_write`. The
-- device is a parameter: what a register write makes of it, and what a register read gives.
pub mod Sectors
use buaa_mos_with_swap.Prelude.{
  ℕ, zero, suc, ◌+◌, ◌*◌, ◌/◌, ◌%◌, ◌^◌, Bool, ◌==◌, not, if◌then◌else◌, update, bit, or_bits,
}
use buaa_mos_with_swap.Syscall.Range.{sd_check, sd_base}

-- The registers, from include/malta.h.
abbrev pub sd_data : ℕ
sd_data = sd_base

abbrev pub sd_nsect : ℕ
sd_nsect = sd_base + 2

abbrev pub sd_lbal : ℕ
sd_lbal = sd_base + 3

abbrev pub sd_lbam : ℕ
sd_lbam = sd_base + 4

abbrev pub sd_lbah : ℕ
sd_lbah = sd_base + 5

abbrev pub sd_device : ℕ
sd_device = sd_base + 6

abbrev pub sd_status : ℕ
sd_status = sd_base + 7

-- The device and the words of memory by address.
pub record Bus (S : Type 0) : Type 0 where
  pub device : S
  pub memory : ℕ → ℕ

-- `rejected` is the panic, `waiting` a poll whose fuel ran out.
pub data Polled (S : Type 0) : Type 0 where
  done : Bus S → Polled S
  rejected : Polled S
  waiting : Polled S

-- Bits 24 to 27 of the sector, `MALTA_SWAP_LBA`, and the number of the disk.
unfoldable pub device_byte : ℕ → ℕ → ℕ
device_byte diskno secno = or_bits 32 (or_bits 32 (secno / 2 ^ 24 % 16) 0xe0) (diskno * 16) % 256

module _ {S : Type 0} (put : ℕ → ℕ → ℕ → S → S) (take : ℕ → ℕ → S → ℕ × S) where
  -- `panic_on(write_sd(...))` and `panic_on(read_sd(...))`, and what comes next.
  unfoldable pub write_reg : ℕ → ℕ → ℕ → (Bus S → Polled S) → Bus S → Polled S
  write_reg pa len v k b =
      if sd_check pa len then k (record b { device = put pa len v b.device }) else rejected

  unfoldable pub read_reg : ℕ → ℕ → (ℕ → Bus S → Polled S) → Bus S → Polled S
  read_reg pa len k b =
      let r = take pa len b.device in
      if sd_check pa len then k r.0 (record b { device = r.1 }) else rejected

  unfoldable pub wait_sd_ready : ℕ → (Bus S → Polled S) → Bus S → Polled S
  wait_sd_ready zero k b = waiting
  wait_sd_ready (suc fuel) k b =
      read_reg sd_status 1
        (λ flag c. let again = wait_sd_ready fuel k c in if bit flag 7 then again else k c) b

  -- Steps 1 to 6 of a sector.
  unfoldable pub select : ℕ → ℕ → ℕ → (Bus S → Polled S) → Bus S → Polled S
  select command diskno secno k = write_reg sd_nsect 1 1 (
      write_reg sd_lbal 1 (secno % 256) (
        write_reg sd_lbam 1 (secno / 2 ^ 8 % 256) (
          write_reg sd_lbah 1 (secno / 2 ^ 16 % 256)
            (write_reg sd_device 1 (device_byte diskno secno) (write_reg sd_status 1 command k)))))

  -- Step 8, from word `i` on.
  unfoldable pub read_words : ℕ → ℕ → ℕ → (Bus S → Polled S) → Bus S → Polled S
  read_words zero i dst k b = k b
  read_words (suc n) i dst k b =
      read_reg sd_data 4
        (λ v c. read_words n (i + 1) dst k (record c { memory = update c.memory (dst + i * 4) v }))
        b

  unfoldable pub write_words : ℕ → ℕ → ℕ → (Bus S → Polled S) → Bus S → Polled S
  write_words zero i src k b = k b
  write_words (suc n) i src k b =
      write_reg sd_data 4 (b.memory (src + i * 4)) (write_words n (i + 1) src k) b

  -- The loop over `n` sectors, with `dst + offset` as `dst`; `nsecs + secno` does not wrap.
  unfoldable pub read_sectors : ℕ → ℕ → ℕ → ℕ → ℕ → Bus S → Polled S
  read_sectors fuel diskno zero secno dst b = done b
  read_sectors fuel diskno (suc n) secno dst b =
      wait_sd_ready fuel
        (select 0x20 diskno secno (
          wait_sd_ready fuel (
            read_words 128 0 dst
              (read_reg sd_status 1 (λ v. read_sectors fuel diskno n (secno + 1) (dst + 512))))))
        b

  unfoldable pub sd_read : ℕ → ℕ → ℕ → ℕ → ℕ → Bus S → Polled S
  sd_read fuel diskno secno dst nsecs b =
      if not (diskno == 2) then rejected else read_sectors fuel diskno nsecs secno dst b

  unfoldable pub write_sectors : ℕ → ℕ → ℕ → ℕ → ℕ → Bus S → Polled S
  write_sectors fuel diskno zero secno src b = done b
  write_sectors fuel diskno (suc n) secno src b =
      wait_sd_ready fuel
        (select 0x30 diskno secno (
          wait_sd_ready fuel (
            write_words 128 0 src
              (read_reg sd_status 1 (λ v. write_sectors fuel diskno n (secno + 1) (src + 512))))))
        b

  unfoldable pub sd_write : ℕ → ℕ → ℕ → ℕ → ℕ → Bus S → Polled S
  sd_write fuel diskno secno src nsecs b =
      if not (diskno == 2) then rejected else write_sectors fuel diskno nsecs secno src b
