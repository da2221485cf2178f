-- ===== src/Flash.antt =====
-- The flash driver, sw/lib/hal/spi_s25fs512s.c and its header.
pub mod Link
pub mod Start
pub mod Log
pub mod Read
pub mod Program
pub mod Boot
mod Tests
use cheshire_can.Prelude.{
  ℕ, zero, suc, ◌+◌, ◌-◌, ◌*◌, ◌/◌, ◌%◌, ◌^◌, Bool, true, false, ◌||◌, Option, none, some, List, [],
  ◌∷◌, bit_and, ◌==◌, ◌!=◌, ltb, leb, if◌then◌else◌, get_or,
}
use cheshire_can.Word.{u32, u64, min_c, ◌<<<◌, ◌>>>◌}
use cheshire_can.Machine.{
  Cmd, ok, pure, fail, stuck, and_then, ◌>>=◌, ◌>>◌, when, return_int, check_assert, check_call,
  run, load, store,
}
use cheshire_can.Spi
use cheshire_can.Spi.{Dif, Segment, opcode, address, tx, rx, transact}

-- `spi_s25fs512s_t`; `spi_host` is part of the world. The chip select is not negative.
pub record Flash : Type 0 where
  pub spi_freq : ℕ
  pub csid : ℕ

-- The `dif_spi_host_config_t` of `spi_s25fs512s_init`.
abbrev pub flash_config : ℕ → ℕ → Spi.Config
flash_config core_freq clock = record {
  idle = 0xf;
  lead = 0xf;
  trail = 0xf;
  cpha = 0;
  cpol = 0;
  full_cycle = false;
  peripheral_clock_freq_hz = core_freq;
  spi_clock = clock;
}

-- `spi_s25fs512s_init`; `none` is a null handle
unfoldable pub flash_init : {W : Type 0} → Dif W → Option Flash → ℕ → Cmd W (Unit {0})
flash_init dif none core_freq = fail 0x11
flash_init dif (some flash) core_freq = do
  check_assert 0x12 (ltb flash.csid dif.num_cs)
  check_assert 0x13 (flash.spi_freq != 0)
  check_assert 0x14 (leb flash.spi_freq core_freq)
  check_call dif.init
  run dif.reset
  check_call (dif.configure_cs (flash_config core_freq flash.spi_freq) flash.csid)
  run dif.enable
  check_call (dif.output_set_enabled true)

-- Where the 4 KiB sectors to erase begin.
abbrev pub small_sectors : ℕ → ℕ → ℕ
small_sectors sector_addr sector_size =
    if (sector_addr >>> 18) % 64 == 63 then sector_addr + sector_size - 8 * 4096 else sector_addr

abbrev pub erases_small : ℕ → Bool
erases_small sector_addr = (sector_addr >>> 18) % 64 == 63 || (sector_addr >>> 18) % 64 == 0

module _ {W : Type 0} (dif : Dif W) (flash : Flash) where
  abbrev pub issue : List Segment → Cmd W (Unit {0})
  issue segments = transact (dif.transaction flash.csid segments) >> pure tt

  -- `__spi_s25fs512s_single_read_chunk`
  unfoldable pub single_read_chunk : ℕ → ℕ → ℕ → Cmd W (Unit {0})
  single_read_chunk buf addr len = do
    bytes ← transact (dif.transaction flash.csid (opcode 0x13 ∷ address (u32 addr) ∷ rx len ∷ []))
    store buf bytes

  unfoldable pub single_read_loop : ℕ → ℕ → ℕ → ℕ → ℕ → Cmd W (Unit {0})
  single_read_loop zero buf addr len offs = stuck
  single_read_loop (suc rounds) buf addr len offs =
      let chunk_len = min_c (4 * dif.rx_depth) (len - offs) in
      let rest = single_read_loop rounds buf addr len (u64 (offs + 4 * dif.rx_depth)) in
      if ltb offs len
      then single_read_chunk (buf + offs) (u64 (addr + offs)) chunk_len >> rest
      else pure tt

  -- `spi_s25fs512s_single_read`
  unfoldable pub single_read : ℕ → ℕ → ℕ → Cmd W (Unit {0})
  single_read buf addr len = do
    check_assert 0x15 (ltb flash.spi_freq (50 * 1000 * 1000))
    single_read_loop (len + 1) buf addr len 0

  -- `__spi_s25fs512s_poll_wip`, for a number of rounds that the code does not bound
  unfoldable pub poll_wip : ℕ → Cmd W (Unit {0})
  poll_wip zero = stuck
  poll_wip (suc rounds) = do
    bytes ← transact (dif.transaction flash.csid (opcode 0x05 ∷ rx 1 ∷ []))
    let rest = poll_wip rounds
    if bit_and (get_or bytes 0 0) 1 != 0 then rest else return_int (bit_and (get_or bytes 0 0) 0x60)

  -- `__spi_s25fs512s_set_wen`
  unfoldable pub set_wen : Cmd W (Unit {0})
  set_wen = issue (opcode 0x06 ∷ [])

  -- A write is enabled, issued, and waited for.
  unfoldable pub write_and_wait : ℕ → List Segment → Cmd W (Unit {0})
  write_and_wait rounds segments = set_wen >> issue segments >> poll_wip rounds

  -- The 4 KiB sectors from the `i`-th on, as many as are left.
  unfoldable pub erase_small_loop : ℕ → ℕ → ℕ → ℕ → Cmd W (Unit {0})
  erase_small_loop rounds addr_4kib zero i = pure tt
  erase_small_loop rounds addr_4kib (suc left) i = do
    write_and_wait rounds (opcode 0x21 ∷ address (u32 (addr_4kib + (i <<< 12))) ∷ [])
    erase_small_loop rounds addr_4kib left (i + 1)

  unfoldable pub program_loop : ℕ → ℕ → ℕ → ℕ → ℕ → ℕ → Cmd W (Unit {0})
  program_loop rounds buf sector_addr sector_size zero p = stuck
  program_loop rounds buf sector_addr sector_size (suc left) p = do
    bytes ← load (buf + p) 256
    let program =
        write_and_wait rounds (opcode 0x12 ∷ address (u32 (sector_addr + p)) ∷ tx bytes ∷ [])
    let rest = program_loop rounds buf sector_addr sector_size left (p + 256)
    if ltb p sector_size then program >> rest else pure tt

  -- `__spi_s25fs512s_single_flash_sector`
  unfoldable pub single_flash_sector : ℕ → ℕ → ℕ → ℕ → Cmd W (Unit {0})
  single_flash_sector rounds buf sector_addr sector_size = do
    when (erases_small sector_addr)
        (erase_small_loop rounds (small_sectors sector_addr sector_size) 8 0)
    write_and_wait rounds (opcode 0xdc ∷ address (u32 sector_addr) ∷ [])
    program_loop rounds buf sector_addr sector_size (sector_size + 1) 0

  -- The sectors from the `s`-th on, as many as are left.
  unfoldable pub sector_loop : ℕ → ℕ → ℕ → ℕ → ℕ → Cmd W (Unit {0})
  sector_loop rounds buf sector zero s = pure tt
  sector_loop rounds buf sector (suc left) s = do
    single_flash_sector rounds (buf + (s <<< 18)) (u64 (u64 (sector + s) <<< 18)) (256 * 1024)
    sector_loop rounds buf sector left (s + 1)

  -- `spi_s25fs512s_single_flash`; the register that is addressed is read into a local that is not used
  unfoldable pub single_flash : ℕ → ℕ → ℕ → ℕ → Cmd W (Unit {0})
  single_flash rounds buf sector num_sectors = do
    check_assert 0x16 (ltb flash.spi_freq (100 * 1000 * 1000))
    set_wen
    issue (opcode 0xb7 ∷ [])
    set_wen
    issue (opcode 0x71 ∷ address 0x00800004 ∷ rx 1 ∷ [])
    poll_wip rounds
    sector_loop rounds buf sector num_sectors 0
