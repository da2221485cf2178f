-- ===== src/I2c.antt =====
-- The EEPROM driver, sw/lib/hal/i2c_24fc1025.c. The I2C driver of OpenTitan, sw/device/lib/dif/dif_i2c.h,
-- is not in the repository: its calls are parameters.
pub mod Control
pub mod Eeprom
pub mod Address
pub mod Read
pub mod Write
mod Sim
mod Tests
use cheshire_can.Prelude.{
  ℕ, zero, suc, ◌+◌, ◌-◌, ◌*◌, ◌/◌, ◌%◌, ◌^◌, Bool, true, false, ◌&&◌, not, List, [], ◌∷◌, bit_and,
  bit_or, ◌==◌, ◌!=◌, ltb, if◌then◌else◌, get_or,
}
use cheshire_can.Word.{u8, u64, sub64, min_c, ◌>>>◌}
use cheshire_can.Machine.{
  Cmd, ok, err, pure, fail, stuck, and_then, ◌>>=◌, ◌>>◌, return_int, check_assert, check_call,
  load, store,
}
use cheshire_can.Clint.{Clint, clint_spin_ticks}

-- How a byte is formatted: a start, a byte sent with and without a stop, and a number of bytes to read.
pub data Fmt : Type 0 where
  fmt_start fmt_tx fmt_tx_stop fmt_rx : Fmt

pub record Timing : Type 0 where
  pub clock_period_nanos : ℕ
  pub scl_period_nanos : ℕ
  pub sda_fall_nanos : ℕ
  pub sda_rise_nanos : ℕ

pub record Levels : Type 0 where
  pub fmt : ℕ
  pub rx : ℕ
  pub tx : ℕ
  pub acq : ℕ

pub record I2c (W : Type 0) : Type 0 where
  -- I2C_PARAM_FIFO_DEPTH of the generated i2c_regs.h
  pub fifo_depth : ℕ
  pub init : W → ℕ × W
  pub set_enabled : Bool → W → ℕ × W
  pub reset_acq_fifo : W → ℕ × W
  pub reset_fmt_fifo : W → ℕ × W
  pub reset_rx_fifo : W → ℕ × W
  pub reset_tx_fifo : W → ℕ × W
  -- `dif_i2c_compute_timing` and `dif_i2c_configure` with what the former computes, in fast mode
  pub compute_timing : Timing → W → ℕ × W
  pub configure : Timing → W → ℕ × W
  pub get_fifo_levels : W → ℕ × Levels × W
  pub write_byte : ℕ → Fmt → Bool → W → ℕ × W
  pub read_byte : W → ℕ × ℕ × W

-- A call that also gives a result.
abbrev pub fetch_call : {W A : Type 0} → (W → ℕ × A × W) → Cmd W A
fetch_call f s =
    let (code, value, w) = f s.world in
    if code % 2 ^ 32 == 0
    then ok value (record s { world = w })
    else err (code % 2 ^ 32) (record s { world = w })

abbrev pub timing : ℕ → Timing
timing core_freq = record {
  clock_period_nanos = 1000000000 / core_freq;
  scl_period_nanos = 1000000 / 400;
  sda_fall_nanos = 300;
  sda_rise_nanos = 100;
}

abbrev pub is_vacant : Levels → Bool
is_vacant levels = (levels.fmt == 0) && (levels.rx == 0) && (levels.tx == 0) && (levels.acq == 0)

-- Only the low byte of this goes out.
abbrev pub ctrl_waddr : ℕ → ℕ
ctrl_waddr addr = bit_or (bit_or 0xa0 (bit_and addr 0x10000 >>> 1)) (bit_and addr 0x1100000 >>> 4)

module _ {W : Type 0} (i2c : I2c W) (clint : Clint W) where
  -- `i2c_24fc1025_init`, for a handle that is not null
  unfoldable pub i2c_init : ℕ → Cmd W (Unit {0})
  i2c_init core_freq = do
    check_assert 0x12 (core_freq != 0)
    check_call i2c.init
    check_call (i2c.set_enabled false)
    check_call i2c.reset_acq_fifo
    check_call i2c.reset_fmt_fifo
    check_call i2c.reset_rx_fifo
    check_call i2c.reset_tx_fifo
    check_call (i2c.compute_timing (timing core_freq))
    check_call (i2c.configure (timing core_freq))
    check_call (i2c.set_enabled true)

  -- The loops that look at the FIFOs, for a number of rounds that the code does not bound.
  unfoldable pub wait_levels : (Levels → Bool) → ℕ → Cmd W (Unit {0})
  wait_levels enough zero = stuck
  wait_levels enough (suc rounds) = do
    levels ← fetch_call i2c.get_fifo_levels
    let rest = wait_levels enough rounds
    if enough levels then pure tt else rest

  unfoldable pub send_byte : ℕ → Fmt → Cmd W (Unit {0})
  send_byte byte format = check_call (i2c.write_byte (u8 byte) format true)

  -- The bytes of a buffer from `src` on, as many as are left.
  unfoldable pub send_bytes : ℕ → ℕ → Cmd W (Unit {0})
  send_bytes src zero = pure tt
  send_bytes src (suc left) = do
    bytes ← load src 1
    send_byte (get_or bytes 0 0) fmt_tx
    send_bytes (src + 1) left

  unfoldable pub receive_bytes : ℕ → ℕ → Cmd W (Unit {0})
  receive_bytes dst zero = pure tt
  receive_bytes dst (suc left) = do
    byte ← fetch_call i2c.read_byte
    store dst (byte ∷ [])
    receive_bytes (dst + 1) left

  -- The part of an access that reads and writes share: the FIFOs are vacated and the address is sent.
  unfoldable pub access_address : ℕ → ℕ → Fmt → Cmd W (Unit {0})
  access_address rounds addr last = do
    wait_levels is_vacant rounds
    clint_spin_ticks clint rounds 1
    check_call (i2c.set_enabled false)
    send_byte (ctrl_waddr addr) fmt_start
    send_byte (bit_and (addr >>> 8) 0xff) fmt_tx
    send_byte (bit_and addr 0xff) last

  unfoldable pub read_chunk : ℕ → ℕ → ℕ → ℕ → Cmd W (Unit {0})
  read_chunk rounds buf addr len = do
    access_address rounds addr fmt_tx_stop
    send_byte (bit_or (ctrl_waddr addr) 0x1) fmt_start
    check_call (i2c.write_byte (u8 len) fmt_rx false)
    check_call (i2c.set_enabled true)
    wait_levels (λ levels. not (ltb levels.rx len)) rounds
    receive_bytes buf len

  -- `depth` bounds the calls of the function by itself.
  unfoldable pub write_chunk : ℕ → ℕ → ℕ → ℕ → ℕ → Cmd W (Unit {0})
  write_chunk rounds zero buf addr len = stuck
  write_chunk rounds (suc depth) buf addr len = do
    access_address rounds addr fmt_tx
    let half_fill = i2c.fifo_depth / 2
    send_bytes buf (min_c (sub64 len 1) half_fill)
    last ← load (u64 (buf + sub64 len 1)) 1
    send_byte (get_or last 0 0) fmt_tx
    check_call (i2c.set_enabled true)
    let again = write_chunk rounds depth (buf + len) (u64 (addr + len)) (len - half_fill)
    if ltb half_fill len then again else pure tt

  -- `__i2c_24fc1025_access_chunk`
  unfoldable pub access_chunk : ℕ → ℕ → ℕ → ℕ → Bool → Cmd W (Unit {0})
  access_chunk rounds buf addr len true = write_chunk rounds (len + 1) buf addr len
  access_chunk rounds buf addr len false = read_chunk rounds buf addr len

  unfoldable pub access_loop : ℕ → ℕ → ℕ → ℕ → Bool → ℕ → ℕ → Cmd W (Unit {0})
  access_loop rounds buf addr len write zero offs = stuck
  access_loop rounds buf addr len write (suc chunks) offs =
      let rest = access_loop rounds buf addr len write chunks (offs + i2c.fifo_depth) in
      let chunk_len = min_c i2c.fifo_depth (len - offs) in
      if ltb offs len
      then access_chunk rounds (buf + offs) (u64 (addr + offs)) chunk_len write >> rest
      else pure tt

  -- `__i2c_24fc1025_access`
  unfoldable pub access : ℕ → ℕ → ℕ → ℕ → Bool → Cmd W (Unit {0})
  access rounds buf addr len write = do
    check_assert 0x13 (128 % i2c.fifo_depth == 0)
    let addr_offs = addr % i2c.fifo_depth
    let offs = i2c.fifo_depth - addr_offs
    let aligned = access_loop rounds buf addr len write (len + 1) 0
    let unaligned =
        access_chunk rounds buf addr offs write
        >> access_loop rounds buf addr len write (len + 1) offs
    if addr_offs != 0 then unaligned else aligned

  unfoldable pub i2c_read : ℕ → ℕ → ℕ → ℕ → Cmd W (Unit {0})
  i2c_read rounds buf addr len = access rounds buf addr len false

  unfoldable pub i2c_write : ℕ → ℕ → ℕ → ℕ → Cmd W (Unit {0})
  i2c_write rounds buf addr len = access rounds buf addr len true
