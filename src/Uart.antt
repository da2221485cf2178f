-- ===== src/Uart.antt =====
-- The serial line, sw/lib/dif/uart.c and its header, and the debug server on top of it,
-- sw/lib/hal/uart_debug.c. The registers of the device are memory-mapped hardware.
pub mod Line
pub mod Strings
pub mod Session
pub mod Serve
mod Tests
use cheshire_can.Prelude.{
  ℕ, zero, suc, ◌+◌, ◌*◌, ◌/◌, ◌%◌, ◌^◌, Bool, true, false, ◌&&◌, List, [], ◌∷◌, bit_and, ◌==◌,
  ◌!=◌, if◌then◌else◌, get_or,
}
use cheshire_can.Word.{u8, u32, ◌<<<◌, ◌>>>◌, le_value, le_bytes}
use cheshire_can.Machine.{
  Cmd, ok, pure, fail, stuck, and_then, ◌>>=◌, ◌>>◌, check_assert, load, store,
}
use cheshire_can.Machine.Store.{Bytes}

-- The registers at the device's base, one byte each.
pub record Bus (W : Type 0) : Type 0 where
  pub read8 : ℕ → W → ℕ × W
  pub write8 : ℕ → ℕ → W → W

abbrev pub baudrate : ℕ
baudrate = 115200

module _ {W : Type 0} (bus : Bus W) where
  abbrev pub get_reg : ℕ → Cmd W ℕ
  get_reg offs s = let (value, w) = bus.read8 offs s.world in ok value (record s { world = w })

  abbrev pub set_reg : ℕ → ℕ → Cmd W (Unit {0})
  set_reg offs value s = ok tt (record s { world = bus.write8 offs (u8 value) s.world })

  unfoldable pub uart_init : ℕ → ℕ → Cmd W (Unit {0})
  uart_init freq baud = do
    let divisor = freq / (baud <<< 4)
    set_reg 4 0x00
    set_reg 12 0x80
    set_reg 0 divisor
    set_reg 4 (divisor >>> 8)
    set_reg 12 0x03
    set_reg 8 0xc7
    set_reg 16 0x20

  unfoldable pub uart_read_ready : Cmd W Bool
  uart_read_ready = do status ← get_reg 20; pure (bit_and status (2 ^ 0) != 0)

  unfoldable pub uart_write_ready : Cmd W Bool
  uart_write_ready = do status ← get_reg 20; pure (bit_and status (2 ^ 5) != 0)

  unfoldable pub uart_write_idle : Cmd W Bool
  uart_write_idle = do
    ready ← uart_write_ready
    let idle = get_reg 20 >>= λ status. pure (bit_and status (2 ^ 6) != 0)
    if ready then idle else pure false

  -- `while (!test) ;`, for a number of rounds that the code does not bound
  unfoldable pub spin : Cmd W Bool → ℕ → Cmd W (Unit {0})
  spin test zero = stuck
  spin test (suc rounds) = do
    done ← test
    let rest = spin test rounds
    if done then pure tt else rest

  unfoldable pub uart_write : ℕ → ℕ → Cmd W (Unit {0})
  uart_write rounds byte = spin uart_write_ready rounds >> set_reg 0 byte

  -- The string from `src` on, as many bytes as are left.
  unfoldable pub uart_write_str : ℕ → ℕ → ℕ → Cmd W (Unit {0})
  uart_write_str rounds src zero = pure tt
  uart_write_str rounds src (suc left) = do
    bytes ← load src 1
    uart_write rounds (get_or bytes 0 0)
    uart_write_str rounds (src + 1) left

  unfoldable pub uart_write_flush : ℕ → Cmd W (Unit {0})
  uart_write_flush rounds = spin uart_write_idle rounds

  unfoldable pub uart_read : ℕ → Cmd W ℕ
  uart_read rounds = spin uart_read_ready rounds >> get_reg 0

  unfoldable pub uart_read_str : ℕ → ℕ → ℕ → Cmd W (Unit {0})
  uart_read_str rounds dst zero = pure tt
  uart_read_str rounds dst (suc left) = do
    byte ← uart_read rounds
    store dst (byte ∷ [])
    uart_read_str rounds (dst + 1) left

  -- The same into a local of the caller, and out of one.
  unfoldable pub receive_local : ℕ → ℕ → Cmd W Bytes
  receive_local rounds zero = pure []
  receive_local rounds (suc left) = do
    byte ← uart_read rounds
    bytes ← receive_local rounds left
    pure (byte ∷ bytes)

  unfoldable pub send_local : ℕ → Bytes → Cmd W (Unit {0})
  send_local rounds [] = pure tt
  send_local rounds (byte ∷ bytes) = uart_write rounds byte >> send_local rounds bytes

  -- `uart_debug_init`, for a base that is not null
  unfoldable pub uart_debug_init : ℕ → Cmd W (Unit {0})
  uart_debug_init core_freq = do check_assert 0x12 (core_freq != 0); uart_init core_freq baudrate

  unfoldable pub uart_debug_check : Cmd W Bool
  uart_debug_check = do
    ready ← uart_read_ready
    let acknowledged = get_reg 0 >>= λ byte. pure (byte == 0x06)
    if ready then acknowledged else pure false

  unfoldable pub serve_read : ℕ → Cmd W (Unit {0})
  serve_read rounds = do
    addr ← receive_local rounds 8
    len ← receive_local rounds 8
    uart_write rounds 0x06
    uart_write_str rounds (le_value addr) (le_value len)
    uart_write rounds 0x04

  unfoldable pub serve_write : ℕ → Cmd W (Unit {0})
  serve_write rounds = do
    addr ← receive_local rounds 8
    len ← receive_local rounds 8
    uart_write rounds 0x06
    uart_read_str rounds (le_value addr) (le_value len)
    uart_write rounds 0x04

  -- What follows a return of the code that was run.
  unfoldable pub report : ℕ → ℕ → Cmd W ℕ
  report rounds ret = do uart_write rounds 0x14; send_local rounds (le_bytes 4 ret); pure (u32 ret)

  -- `invoke` runs code of the host's choice.
  unfoldable pub serve_exec : (ℕ → Cmd W ℕ) → ℕ → Cmd W ℕ
  serve_exec invoke rounds = do
    addr ← receive_local rounds 8
    uart_write rounds 0x06
    ret ← invoke (le_value addr)
    report rounds ret

  -- The endless loop, for a number of commands.
  unfoldable pub serve_loop : (ℕ → Cmd W ℕ) → ℕ → ℕ → Cmd W ℕ
  serve_loop invoke rounds zero = stuck
  serve_loop invoke rounds (suc commands) = do
    code ← uart_read rounds
    let again = serve_loop invoke rounds commands
    let otherwise = if code == 0x13 then serve_exec invoke rounds else fail 1
    let writing = if code == 0x12 then serve_write rounds >> again else otherwise
    if code == 0x11 then serve_read rounds >> again else writing

  unfoldable pub uart_debug_serve : (ℕ → Cmd W ℕ) → ℕ → ℕ → Cmd W ℕ
  uart_debug_serve invoke rounds commands =
      uart_write rounds 0x06 >> serve_loop invoke rounds commands
