-- ===== src/Boot/Rom.antt =====
-- The boot ROM and the flash tool from end to end, with the flash chip: hw/bootrom/cheshire_bootrom.c and
-- sw/boot/flash.c.
mod Tests
use cheshire_can.Prelude.{
  ℕ, ◌+◌, ◌-◌, ◌*◌, ◌/◌, ◌%◌, ◌^◌, ◌≤◌, ◌<◌, ◌≡◌, ◌++◌, ◌∙◌, refl, ap, arith, inl, inr, leb,
  Bool-cases,
}
use native.Mathlib.Nat.{mul-le-mul_right, mul-le-mul_left}
use cheshire_can.Word.{u64, min_c, le_value}
use cheshire_can.Machine.{State, Cmd}
use cheshire_can.Machine.Store.{Memory, load_bytes}
use cheshire_can.Machine.Yields.{Yields}
use cheshire_can.Clint.Frequency.{Steady, clint_get_core_freq-measures, clint_spin_until-ends}
use cheshire_can.Flash.{Flash}
use cheshire_can.Flash.Link.{Link}
use cheshire_can.Flash.Log.{Commands, mode_log, sectors_log}
use cheshire_can.Flash.Program.{Told, single_flash-programs}
use cheshire_can.Flash.Start.{Starts, flash_init-Starts}
use cheshire_can.Boot.{Board, flash_spi_s25fs512s, flash_main, boot_mode}

-- A measured frequency is not as low as 3 Hz.
measured_pos :
    (ratio step ref n f : ℕ)
    → 8 * step ≤ ratio
    → 8 ≤ ratio
    → 0 < n
    → 0 < ref
    → n * ratio * ref < (f + 1) * n + 4 * step * ref
    → 4 ≤ f
measured_pos ratio step ref n f fast wide ticks pos above = elim (Bool-cases (leb 4 f)) [
  | inl e ↦ ground arith
  | inr e ↦
      let few : (f + 1) * n ≤ 4 * n = mul-le-mul_right {m = f + 1} {n = 4} n (ground arith) in
      let once : 1 * ratio ≤ n * ratio = mul-le-mul_right {m = 1} {n = n} ratio ticks in
      let half : 8 * step * ref ≤ n * ratio * ref =
        mul-le-mul_right {m = 8 * step} {n = n * ratio} ref (omega arith) in
      let eight : n * 8 ≤ n * ratio = mul-le-mul_left {m = 8} {n = ratio} n wide in
      let whole : n * ratio * 1 ≤ n * ratio * ref =
        mul-le-mul_left {m = 1} {n = ref} (n * ratio) pos in
      let split : 8 * step * ref ≡ 2 * (4 * step * ref) = omega arith in absurd (omega arith)
]

-- The handle of the chip.
abbrev pub handle_of : ℕ → Flash
handle_of core_freq = record { spi_freq = min_c (40 * 1000 * 1000) (core_freq / 4); csid = 1 }

module _ {W : Type 0} (board : Board W) {chip : ℕ → ℕ} {patience ratio step : ℕ}
    (link : Link board.spi 1 chip patience) (host : Starts board.spi)
    (steady : Steady board.clint ratio step) where
  flash_spi_s25fs512s-Told :
      (core_freq rtc_freq img_base sector len : ℕ) (s : State W) (m : Memory)
      → s.mem ≡ m
      → 4 ≤ core_freq
      → 0 < ratio
      → (u64 (350 * rtc_freq) / 1000000 + 1) * ratio < board.rounds
      → patience ≤ board.rounds
      → 1 < board.spi.num_cs
      → (log : Commands) × Yields
          (Told
            (handle_of core_freq)
            link
            ((log ++ mode_log) ++ sectors_log img_base sector m len 0)
            m)
          tt
          (flash_spi_s25fs512s board core_freq rtc_freq img_base sector len s)
  unfolding flash_spi_s25fs512s
  flash_spi_s25fs512s-Told core_freq rtc_freq img_base sector len s m same runs pos enough polls
        selects =
      let flash : Flash = handle_of core_freq in
      let begun =
        flash_init-Starts board.spi flash core_freq s host selects (ground arith) (ground arith) in
      let waited =
        clint_spin_until-ends steady board.rounds (u64 (350 * rtc_freq) / 1000000 + 1) begun.final
          pos (omega arith) in
      let log : Commands = link.log waited.final.world in
      let told : Told flash link log m waited.final = record {
        logged = refl;
        memory = waited.holds.1 ∙ begun.holds ∙ same;
      } in
      rw (begun.runs, waited.runs)
        (
          log,
          single_flash-programs flash link board.rounds img_base sector len (ground arith) polls
              told,
        )

  -- The flash tool for the flash chip, on a board with a steady clock whose reads take at most an eighth of a
  -- tick and an SPI host that starts, and with enough rounds for the chip to be ready after each command: it returns zero, with the memory as before, and what it has told the chip last is
  -- what flashing `len` sectors from `sector` on with the image is.
  pub flash_main-Told :
      (rtc_freq img_base sector len : ℕ) (s : State W)
      → let n = rtc_freq / 2500 in
        le_value (load_bytes (board.base_regs + 0x44) 4 s.mem) ≡ rtc_freq
        → le_value (load_bytes (board.base_regs + 0x0) 4 s.mem) ≡ 2
        → le_value (load_bytes (board.base_regs + 0x4) 4 s.mem) ≡ img_base
        → le_value (load_bytes (board.base_regs + 0x8) 4 s.mem) ≡ sector
        → le_value (load_bytes (board.base_regs + 0xc) 4 s.mem) ≡ len
        → 8 * step ≤ ratio
        → 8 ≤ ratio
        → 0 < n
        → (n + 2) * ratio ≤ board.rounds
        → (u64 (350 * rtc_freq) / 1000000 + 1) * ratio < board.rounds
        → patience ≤ board.rounds
        → steady.cycle s.world + (n + 3) * ratio < 2 ^ 64
        → (n * ratio + 4 * step) * rtc_freq < 2 ^ 64
        → 1 < board.spi.num_cs
        → (f : ℕ) × (log : Commands) × Yields
            (Told
              (handle_of f)
              link
              ((log ++ mode_log) ++ sectors_log img_base sector s.mem len 0)
              s.mem)
            tt
            (flash_main board s)
  unfolding flash_main
  flash_main-Told rtc_freq img_base sector len s rtc target image first count fast wide ticks enough
        patient polls small narrow selects =
      let (f, measured, below, above) =
        clint_get_core_freq-measures steady (omega arith) (omega arith) board.rounds rtc_freq 2500 s
          ticks enough small narrow in
      let runs : 4 ≤ f =
        measured_pos ratio step rtc_freq (rtc_freq / 2500) f fast wide ticks (omega arith) above in
      let (log, flashed) =
        flash_spi_s25fs512s-Told f rtc_freq img_base sector len measured.final s.mem measured.holds
          runs (omega arith) patient polls selects in
      let still : (offs : ℕ)
          → le_value (load_bytes (board.base_regs + offs) 4 measured.final.mem)
            ≡ le_value (load_bytes (board.base_regs + offs) 4 s.mem) =
        λ offs. ap (λ m. le_value (load_bytes (board.base_regs + offs) 4 m)) measured.holds in
      rw
        (
          rtc,
          measured.runs,
          still 0x0 ∙ target,
          still 0x4 ∙ image,
          still 0x8 ∙ first,
          still 0xc ∙ count,
        )
        (f, log, flashed)
