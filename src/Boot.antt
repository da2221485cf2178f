-- ===== src/Boot.antt =====
-- The boot code: the boot ROM hw/bootrom/cheshire_bootrom.c, the zero-stage loader sw/boot/zsl.c and the
-- flash tool sw/boot/flash.c. What they print is left out.
pub mod Parts
pub mod Sim
pub mod Rom
mod Tests
use cheshire_can.Prelude.{
  ℕ, zero, suc, ◌+◌, ◌-◌, ◌*◌, ◌/◌, ◌%◌, ◌^◌, Bool, true, false, Option, none, some, bit_and,
  bit_or, ◌==◌, ◌!=◌, ltb, if◌then◌else◌,
}
use cheshire_can.Word.{u32, u64, sub64, min_c, le_value, le_bytes, ◌<<<◌}
use cheshire_can.Machine.{
  Run, Cmd, ok, err, hang, pure, fail, stuck, and_then, ◌>>=◌, ◌>>◌, return_int, load, store,
}
use cheshire_can.Spi.{Dif}
use cheshire_can.Sdcard
use cheshire_can.Sdcard.{Card, Undefined}
use cheshire_can.Sdcard.Read.{read_checkcrc}
use cheshire_can.Sdcard.Write.{write_blocks}
use cheshire_can.Flash.{Flash, flash_init, single_read, single_flash}
use cheshire_can.I2c.{I2c, i2c_init, i2c_read, i2c_write}
use cheshire_can.Uart.{
  Bus, uart_init, uart_debug_init, uart_debug_check, uart_debug_serve, baudrate,
}
use cheshire_can.Clint.{Clint, clint_spin_until, clint_get_core_freq}
use cheshire_can.Gpt.{Extent, Guid, Found, Frame, find_partition, boot_part_else_raw}

-- The devices and the addresses that the programs are linked with.
pub record Board (W : Type 0) : Type 0 where
  pub spi : Dif W
  pub i2c : I2c W
  pub uart : Bus W
  pub clint : Clint W
  pub undef : Undefined
  pub base_regs : ℕ
  pub base_spm : ℕ
  -- Where the locals of the boot code lie, and the block buffer of the SD card driver.
  pub frame : Frame
  pub swap : ℕ
  -- The addresses of the three read functions, of a device handle, and the global pointer.
  pub sdcard_read : ℕ
  pub flash_read : ℕ
  pub eeprom_read : ℕ
  pub handle : ℕ
  pub global_pointer : ℕ
  -- Code that is entered: the next stage, and what a debugging host has run.
  pub boot_next_stage : ℕ → Cmd W (Unit {0})
  pub invoke : ℕ → Cmd W ℕ
  -- How long the loops that the code does not bound are run.
  pub rounds : ℕ

abbrev pub zsl_guid : Guid
zsl_guid = record { low = 0x4ce4fd950269b26a; high = 0x622c41011494cf98 }

abbrev pub dtb_guid : Guid
dtb_guid = record { low = 0x42de2aefba442f61; high = 0x9dcb3a5dd7e43392 }

abbrev pub fw_guid : Guid
fw_guid = record { low = 0x4b0d3f5b99ec86da; high = 0x59f8a5cfbac44b8f }

abbrev pub spm_max_lbas : ℕ
spm_max_lbas = 2 * 48

module _ {W : Type 0} (board : Board W) where
  abbrev pub reg : ℕ → Cmd W ℕ
  reg offs = do bytes ← load (board.base_regs + offs) 4; pure (le_value bytes)

  unfoldable pub boot_passive_loop : ℕ → Cmd W (Unit {0})
  boot_passive_loop zero = stuck
  boot_passive_loop (suc rounds) = do
    started ← reg 0x8
    let rest = boot_passive_loop rounds
    let serve = uart_debug_serve board.uart board.invoke board.rounds board.rounds >>= return_int
    let poll = uart_debug_check board.uart >>= λ asked. if asked then serve else rest
    let enter = do
      store (board.base_regs + 0x8) (le_bytes 4 0)
      high ← reg 0x4
      low ← reg 0x0
      board.boot_next_stage (bit_or (high <<< 32) low)
    if bit_and started 2 == 0 then poll else enter

  -- `boot_passive`; its UART's initialisation is not checked
  unfoldable pub boot_passive : ℕ → Cmd W (Unit {0})
  boot_passive core_freq = do
    (if core_freq == 0 then pure tt else uart_debug_init board.uart core_freq)
    boot_passive_loop board.rounds

  unfoldable pub boot_spi_sdcard : ℕ → ℕ → Cmd W (Unit {0})
  boot_spi_sdcard core_freq rtc_freq = do
    let card : Card = record {
      spi_freq = min_c (24 * 1000 * 1000) (core_freq / 2);
      csid = 0;
      csid_dummy = board.spi.num_cs - 1;
    }
    Sdcard.init board.spi board.undef board.rounds (some card) core_freq
    clint_spin_until board.clint board.rounds (u64 (1000 * rtc_freq) / (1000 * 1000) + 1)
    boot_part_else_raw (read_checkcrc board.spi board.undef card board.swap) board.frame
        board.boot_next_stage board.base_regs board.sdcard_read board.handle board.global_pointer
        board.base_spm spm_max_lbas (some zsl_guid) none

  unfoldable pub boot_spi_s25fs512s : ℕ → ℕ → Cmd W (Unit {0})
  boot_spi_s25fs512s core_freq rtc_freq = do
    let flash : Flash = record { spi_freq = min_c (40 * 1000 * 1000) (core_freq / 4); csid = 1 }
    flash_init board.spi (some flash) core_freq
    clint_spin_until board.clint board.rounds (u64 (350 * rtc_freq) / (1000 * 1000) + 1)
    boot_part_else_raw (single_read board.spi flash) board.frame board.boot_next_stage
        board.base_regs board.flash_read board.handle board.global_pointer board.base_spm
        spm_max_lbas (some zsl_guid) none

  unfoldable pub boot_i2c_24fc1025 : ℕ → Cmd W (Unit {0})
  boot_i2c_24fc1025 core_freq = do
    i2c_init board.i2c board.clint core_freq
    boot_part_else_raw (i2c_read board.i2c board.clint board.rounds) board.frame
        board.boot_next_stage board.base_regs board.eeprom_read board.handle board.global_pointer
        board.base_spm spm_max_lbas (some zsl_guid) none

  abbrev pub boot_mode : ℕ → ℕ → ℕ → Cmd W (Unit {0})
  boot_mode bootmode rtc_freq core_freq =
      if bootmode == 1
      then boot_spi_sdcard core_freq rtc_freq
      else if bootmode == 2
      then boot_spi_s25fs512s core_freq rtc_freq
      else if bootmode == 3
      then boot_i2c_24fc1025 core_freq
      else boot_passive core_freq

  -- `main` of the boot ROM
  unfoldable pub bootrom_main : Cmd W (Unit {0})
  bootrom_main = do
    bootmode ← reg 0x40
    rtc_freq ← reg 0x44
    core_freq ← clint_get_core_freq board.clint board.rounds rtc_freq 2500
    boot_mode bootmode rtc_freq core_freq

  unfoldable pub flash_spi_sdcard : ℕ → ℕ → ℕ → ℕ → ℕ → Cmd W (Unit {0})
  flash_spi_sdcard core_freq rtc_freq img_base sector len = do
    let card : Card = record {
      spi_freq = 24 * 1000 * 1000;
      csid = 0;
      csid_dummy = board.spi.num_cs - 1;
    }
    Sdcard.init board.spi board.undef board.rounds (some card) core_freq
    clint_spin_until board.clint board.rounds (u64 (1000 * rtc_freq) / (1000 * 1000) + 1)
    write_blocks board.spi card img_base (u64 (sector <<< 9)) (u64 (len <<< 9)) true

  unfoldable pub flash_spi_s25fs512s : ℕ → ℕ → ℕ → ℕ → ℕ → Cmd W (Unit {0})
  flash_spi_s25fs512s core_freq rtc_freq img_base sector len = do
    let flash : Flash = record { spi_freq = min_c (40 * 1000 * 1000) (core_freq / 4); csid = 1 }
    flash_init board.spi (some flash) core_freq
    clint_spin_until board.clint board.rounds (u64 (350 * rtc_freq) / (1000 * 1000) + 1)
    single_flash board.spi flash board.rounds img_base sector len

  unfoldable pub flash_i2c_24fc1025 : ℕ → ℕ → Cmd W (Unit {0})
  flash_i2c_24fc1025 core_freq img_base = do
    i2c_init board.i2c board.clint core_freq
    i2c_write board.i2c board.clint board.rounds img_base 0 (128 * 1024)

  abbrev pub flash_target : ℕ → ℕ → ℕ → ℕ → ℕ → ℕ → Cmd W (Unit {0})
  flash_target target rtc_freq core_freq img_base sector len =
      if target == 1
      then flash_spi_sdcard core_freq rtc_freq img_base sector len
      else if target == 2
      then flash_spi_s25fs512s core_freq rtc_freq img_base sector len
      else if target == 3
      then flash_i2c_24fc1025 core_freq img_base
      else fail (2 ^ 32 - 1)

  -- `main` of the flash tool
  unfoldable pub flash_main : Cmd W (Unit {0})
  flash_main = do
    rtc_freq ← reg 0x44
    core_freq ← clint_get_core_freq board.clint board.rounds rtc_freq 2500
    target ← reg 0x0
    img_base ← reg 0x4
    sector ← reg 0x8
    len ← reg 0xc
    flash_target target rtc_freq core_freq img_base sector len

-- A call whose code is not looked at.
abbrev pub ignored : {W : Type 0} → Run W (Unit {0}) → Run W (Unit {0})
ignored (ok a s) = ok a s
ignored (err code s) = ok tt s
ignored hang = hang

-- `rread` is the read function that the stage before left behind, called with its global pointer.
module _ {W : Type 0} (board : Board W) (rread : ℕ → ℕ → ℕ → Cmd W (Unit {0})) where
  -- A partition that was found is copied, and anything else is waited on forever.
  abbrev pub copy_or_spin : ℕ → Run W Found → Run W (Unit {0})
  copy_or_spin dst (ok found s) = elim found.part_idx [
    | none ↦ hang
    | some p ↦ ignored (
        rread dst (u64 (0x200 * found.extent.lba_begin))
          (u64 (0x200 * u64 (sub64 found.extent.lba_end found.extent.lba_begin + 1))) s)
  ]
  copy_or_spin dst (err code s) = hang
  copy_or_spin dst hang = hang

  -- `load_part_or_spin`; `stale` is what its locals hold before
  unfoldable pub load_part_or_spin : Extent → Guid → ℕ → ℕ → Cmd W (Unit {0})
  load_part_or_spin stale pguid dst max_lbas s =
      copy_or_spin dst (find_partition rread board.frame stale max_lbas (some pguid) none s)

  -- `main` of the zero-stage loader; `firmware` is entered with the device tree
  unfoldable pub zsl_main : Extent → (ℕ → Cmd W (Unit {0})) → Cmd W (Unit {0})
  zsl_main stale firmware = do
    bootmode ← reg board 0x40
    rtc_freq ← reg board 0x44
    core_freq ← clint_get_core_freq board.clint board.rounds rtc_freq 2500
    read ← reg board 0x0
    uart_init board.uart core_freq baudrate
    let parts =
        load_part_or_spin stale dtb_guid 0x80800000 64
        >> load_part_or_spin stale fw_guid 0x80000000 8192
    (if bit_and read 1 != 0 then parts else pure tt)
    firmware 0x80800000
