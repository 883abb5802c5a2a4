-- ===== src/Pmap/Driver/Sectors.antt =====
-- What `sd_read` of kern/pmap.c fetches from a disk that answers as its registers document.
use buaa_mos_with_swap.Prelude.{
  ℕ, zero, suc, ◌+◌, ◌-◌, ◌*◌, ◌/◌, ◌%◌, ◌^◌, ◌<◌, ◌≤◌, ◌≡◌, ◌≢◌, refl, ◌∙◌, false, arith, ◌==◌,
  update, bit, or_bits, Bool-cases, inl, inr, subst, ap, or_bits-disjoint, or_bits-fields,
  or_bits-zero_right,
}
use buaa_mos_with_swap.Syscall.Range.{sd_check, bad_length, in_window}
use buaa_mos_with_swap.Pmap.Driver.{
  sd_data, sd_nsect, sd_lbal, sd_lbam, sd_lbah, sd_device, sd_status, Bus, Polled, done,
  device_byte, write_reg, read_reg, wait_sd_ready, select, read_words, read_sectors, sd_read,
}

both_bits : or_bits 28 14 2 ≡ 14
unfolding or_bits
both_bits = refl

low_bits : (x : ℕ) → x < 16 → or_bits 32 (or_bits 32 x 0xe0) 32 % 256 ≡ 14 * 16 + x
low_bits x h =
    let lba : or_bits 32 x 0xe0 ≡ 14 * 2 ^ 4 + x =
      or_bits-disjoint 4 28 32 x 14 refl (omega arith) (omega arith) in
    let disk : or_bits 32 (14 * 2 ^ 4 + x) (2 * 2 ^ 4 + 0)
        ≡ or_bits 28 14 2 * 2 ^ 4 + or_bits 4 x 0 =
      or_bits-fields 4 28 32 14 2 x 0 refl (omega arith) (omega arith) in
    let both : or_bits 28 14 2 ≡ 14 = both_bits in
    rw lba (rw disk (rw (both, or_bits-zero_right 4 x (omega arith)) (omega arith)))

device_byte_lem : (secno : ℕ) → device_byte 2 secno ≡ 14 * 16 + secno / 2 ^ 24 % 16
unfolding device_byte
device_byte_lem secno = low_bits (secno / 2 ^ 24 % 16) (omega arith)

-- The address registers name the sector.
address_lem :
    (secno : ℕ)
    → secno < 2 ^ 28
    → secno % 256
        + 2 ^ 8 * (secno / 2 ^ 8 % 256)
        + 2 ^ 16 * (secno / 2 ^ 16 % 256)
        + 2 ^ 24 * (device_byte 2 secno % 16)
      ≡ secno
address_lem secno h = omega (arith, device_byte_lem secno)

module _ {S : Type 0} (put : ℕ → ℕ → ℕ → S → S) (take : ℕ → ℕ → S → ℕ × S) where
  -- The disk is never busy, a PIO read command serves the words of the sector whose number stands in
  -- the four address registers, and a status read disturbs nothing. `content` are the words on disk.
  pub record Answers (content : ℕ → ℕ → ℕ) (Serving : ℕ → ℕ → S → Type 0) : Type 0 where
    pub ready : (d : S) → bit ((take sd_status 1 d).0) 7 ≡ false
    pub selected :
        (d : S) (l m h v : ℕ)
        → v / 16 ≡ 14
        → Serving (l + 2 ^ 8 * m + 2 ^ 16 * h + 2 ^ 24 * (v % 16)) 0 (
            put sd_status 1 0x20 (
              put sd_device 1 v
                (put sd_lbah 1 h (put sd_lbam 1 m (put sd_lbal 1 l (put sd_nsect 1 1 d))))))
    pub polled : (d : S) (sec i : ℕ) → Serving sec i d → Serving sec i ((take sd_status 1 d).1)
    pub given :
        (d : S) (sec i : ℕ) → i < 128 → Serving sec i d → (take sd_data 4 d).0 ≡ content sec i
    pub next :
        (d : S) (sec i : ℕ) → i < 128 → Serving sec i d → Serving sec (i + 1) ((take sd_data 4 d).1)

  -- The `n` words from word `i` of the sector are at `dst + 4 * i` and on; no other word moved.
  pub record Fetched (content : ℕ → ℕ → ℕ) (n i dst sec : ℕ) (b c : Bus S) : Type 0 where
    pub words : (j : ℕ) → i ≤ j → j < i + n → c.memory (dst + j * 4) ≡ content sec j
    pub others : (a : ℕ) → ((j : ℕ) → i ≤ j → j < i + n → a ≢ dst + j * 4) → c.memory a ≡ b.memory a

  module _ {content : ℕ → ℕ → ℕ} {Serving : ℕ → ℕ → S → Type 0}
      (disk : Answers content Serving) where
    read_words-Fetched :
        (n i dst sec : ℕ) (k : Bus S → Polled S) (b : Bus S)
        → i + n ≤ 128
        → Serving sec i b.device
        → (c : Bus S) × (read_words put take n i dst k b ≡ k c) × Fetched content n i dst sec b c
    unfolding read_words read_reg sd_check in_window bad_length
    read_words-Fetched zero i dst sec k b l s =
        (b, refl, record { words = λ j a h. absurd (omega arith); others = λ a h. refl })
    read_words-Fetched (suc n) i dst sec k b l s =
        let v = (take sd_data 4 b.device).0 in
        let b' : Bus S = record {
          device = (take sd_data 4 b.device).1;
          memory = update b.memory (dst + i * 4) v;
        } in
        let (c, e, f) =
          read_words-Fetched n (i + 1) dst sec k b' (omega arith)
            (disk.next b.device sec i (omega arith) s) in
        (
          c,
          e,
          record {
            words = λ j a h. elim (Bool-cases (j == i)) [
              | inl here ↦
                  let same : j ≡ i = ground arith in
                  rw same (
                    f.others (dst + i * 4) (λ j' l' h'. omega arith)
                    ∙ ground (arith, disk.given b.device sec i (omega arith) s))
              | inr later ↦ f.words j (ground arith) (omega arith)
            ];
            others = λ a h.
                f.others a (λ j l' h'. h j (omega arith) (omega arith)) ∙ ground (arith, h i);
          },
        )

    -- The bus after the status read of a poll, and after the commands of a sector.
    abbrev polled_bus : Bus S → Bus S
    polled_bus b = record b { device = (take sd_status 1 b.device).1 }

    abbrev selected_bus : ℕ → Bus S → Bus S
    selected_bus secno b = record b {
      device = put sd_status 1 0x20 (
          put sd_device 1 (device_byte 2 secno) (
            put sd_lbah 1 (secno / 2 ^ 16 % 256) (
              put sd_lbam 1 (secno / 2 ^ 8 % 256)
                (put sd_lbal 1 (secno % 256) (put sd_nsect 1 1 b.device)))));
    }

    wait_sd_ready-ok :
        (fuel : ℕ) (k : Bus S → Polled S) (b : Bus S)
        → wait_sd_ready put take (suc fuel) k b ≡ k (polled_bus b)
    unfolding wait_sd_ready read_reg sd_check in_window bad_length
    wait_sd_ready-ok fuel k b = ground (arith, disk.ready b.device)

    select-ok :
        (secno : ℕ) (k : Bus S → Polled S) (b : Bus S)
        → select put take 0x20 2 secno k b ≡ k (selected_bus secno b)
    unfolding select write_reg sd_check in_window bad_length
    select-ok secno k b = refl

    selected-Serving :
        (secno : ℕ) (b : Bus S) → secno < 2 ^ 28 → Serving secno 0 ((selected_bus secno b).device)
    selected-Serving secno b h =
        subst (λ sec. Serving sec 0 ((selected_bus secno b).device)) (address_lem secno h)
          (disk.selected b.device (secno % 256) (secno / 2 ^ 8 % 256) (secno / 2 ^ 16 % 256)
            (device_byte 2 secno) (omega (arith, device_byte_lem secno)))

    -- One sector: the poll, the commands, the poll, the words, and the status at the end.
    read_sector-Fetched :
        (fuel n secno dst : ℕ) (b : Bus S)
        → secno < 2 ^ 28
        → (c : Bus S) × (read_sectors put take (suc fuel) 2 (suc n) secno dst b
            ≡ read_sectors put take (suc fuel) 2 n (secno + 1) (dst + 512) c)
          × Fetched content 128 0 dst secno b c
    unfolding read_sectors read_reg sd_check in_window bad_length
    read_sector-Fetched fuel n secno dst b h =
        let served : Serving secno 0 ((polled_bus (selected_bus secno (polled_bus b))).device) =
          disk.polled _ secno 0 (selected-Serving secno (polled_bus b) h) in
        let finish : Bus S → Polled S =
          read_reg put take sd_status 1
            (λ v. read_sectors put take (suc fuel) 2 n (secno + 1) (dst + 512)) in
        let (c, e, f) =
          read_words-Fetched 128 0 dst secno finish (polled_bus (selected_bus secno (polled_bus b)))
            (omega arith) served in
        (
          polled_bus c,
          wait_sd_ready-ok fuel _ b
              ∙ select-ok secno _ (polled_bus b)
              ∙ wait_sd_ready-ok fuel _ (selected_bus secno (polled_bus b))
              ∙ e
              ∙ refl,
          record { words = f.words; others = f.others },
        )

    read_sectors-Read :
        (fuel n secno dst : ℕ) (b : Bus S)
        → secno + n ≤ 2 ^ 28
        → (c : Bus S) × (read_sectors put take (suc fuel) 2 n secno dst b ≡ done c)
          × ((k j : ℕ) → k < n → j < 128 → c.memory (dst + k * 512 + j * 4) ≡ content (secno + k) j)
          × ((a : ℕ) → a < dst → c.memory a ≡ b.memory a)
    unfolding read_sectors
    read_sectors-Read fuel zero secno dst b l =
        (b, refl, λ k j h h'. absurd (omega arith), λ a h. refl)
    read_sectors-Read fuel (suc n) secno dst b l =
        let (c, e, f) = read_sector-Fetched fuel n secno dst b (omega arith) in
        let (d, e', rest, low) = read_sectors-Read fuel n (secno + 1) (dst + 512) c (omega arith) in
        (
          d,
          e ∙ e',
          λ k j h h'. elim (Bool-cases (k == 0)) [
            | inl first ↦
                let at : dst + k * 512 + j * 4 ≡ dst + j * 4 = ground arith in
                let sec : secno ≡ secno + k = ground arith in
                ap d.memory at
                ∙ low (dst + j * 4) (omega arith)
                ∙ f.words j (omega arith) (omega arith)
                ∙ ap (λ (q : ℕ). content q j) sec
            | inr later ↦
                let at : dst + k * 512 + j * 4 ≡ dst + 512 + (k - 1) * 512 + j * 4 = ground arith in
                let sec : secno + 1 + (k - 1) ≡ secno + k = ground arith in
                ap d.memory at ∙ rest (k - 1) j (ground arith) h' ∙ ap (λ (q : ℕ). content q j) sec
          ],
          λ a h. low a (omega arith) ∙ f.others a (λ j p q. omega arith),
        )

    -- From a disk that is never busy and answers as its registers document, `sd_read` of sectors that
    -- 28 bits can number ends, with one round of each poll, and word `j` of sector `secno + k` is at
    -- `dst + 512 * k + 4 * j`; memory below `dst` is as it was.
    pub sd_read-content :
        (fuel nsecs secno dst : ℕ) (b : Bus S)
        → secno + nsecs ≤ 2 ^ 28
        → (c : Bus S) × (sd_read put take (suc fuel) 2 secno dst nsecs b ≡ done c)
          × ((k j : ℕ)
              → k < nsecs
              → j < 128
              → c.memory (dst + k * 512 + j * 4) ≡ content (secno + k) j)
          × ((a : ℕ) → a < dst → c.memory a ≡ b.memory a)
    unfolding sd_read
    sd_read-content fuel nsecs secno dst b l = read_sectors-Read fuel nsecs secno dst b l
