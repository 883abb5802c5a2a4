-- ===== src/Tests/Disk.antt =====
-- `sd_read` of kern/pmap.c at a disk that holds the number of each word.
use buaa_mos_with_swap.Prelude.{
  ℕ, ◌+◌, ◌*◌, ◌%◌, ◌^◌, ◌<◌, ◌≡◌, refl, arith, ◌==◌, if◌then◌else◌, update, bit,
}
use buaa_mos_with_swap.Pmap.Driver.{
  sd_data, sd_lbal, sd_lbam, sd_lbah, sd_device, Bus, done, sd_read,
}
use buaa_mos_with_swap.Pmap.Driver.Sectors.{Answers, sd_read-content}

-- The registers, and the next word of the data register.
record Disk : Type 0 where
  registers : ℕ → ℕ
  word : ℕ

abbrev sector : Disk → ℕ
sector d =
    d.registers sd_lbal
    + 2 ^ 8 * d.registers sd_lbam
    + 2 ^ 16 * d.registers sd_lbah
    + 2 ^ 24 * (d.registers sd_device % 16)

abbrev numbers : ℕ → ℕ → ℕ
numbers sec i = sec * 128 + i

abbrev put : ℕ → ℕ → ℕ → Disk → Disk
put pa len v d = record { registers = update d.registers pa v; word = 0 }

abbrev take : ℕ → ℕ → Disk → ℕ × Disk
take pa len d =
    if pa == sd_data then (numbers (sector d) d.word, record d { word = d.word + 1 }) else (0, d)

abbrev Serving : ℕ → ℕ → Disk → Type 0
Serving sec i d = (sector d ≡ sec) × (d.word ≡ i)

disk-Answers : Answers put take numbers Serving
unfolding bit
disk-Answers = record {
  ready = λ d. refl;
  selected = λ d l m h v e. (refl, refl);
  polled = λ d sec i s. s;
  given = λ d sec i h s. rw (s.0, s.1) refl;
  next = λ d sec i h s. (s.0, rw s.1 refl);
}

abbrev bus : Bus Disk
bus = record { device = record { registers = λ r. 0; word = 0 }; memory = λ a. 0 }

sd_read-content_example :
    (c : Bus Disk) × (sd_read put take 1 2 24 0x5000 8 bus ≡ done c)
    × ((k j : ℕ) → k < 8 → j < 128 → c.memory (0x5000 + k * 512 + j * 4) ≡ numbers (24 + k) j)
    × ((a : ℕ) → a < 0x5000 → c.memory a ≡ bus.memory a)
sd_read-content_example = sd_read-content put take disk-Answers 0 8 24 0x5000 bus (omega arith)
