-- ===== src/Sdcard.antt =====
-- The SD card driver, sw/lib/hal/spi_sdcard.c and its header: the SPI transfers, the commands and the
-- initialisation; the children `Read` and `Write` transfer blocks. Locals whose address is taken are
-- values here, buffers of the caller are memory.
pub mod Transfer
pub mod Command
pub mod Frame
pub mod Check
pub mod Activate
pub mod Init
pub mod Read
pub mod Write
mod Tests
use cheshire_can.Prelude.{
  ℕ, zero, suc, ◌+◌, ◌-◌, ◌*◌, ◌/◌, ◌%◌, ◌^◌, Bool, true, false, ◌&&◌, not, Option, none, some,
  List, [], ◌∷◌, bit_and, bit_or, ◌==◌, ◌!=◌, ltb, leb, if◌then◌else◌, take, get_or,
}
use cheshire_can.Word.{u8, u32, u64, ◌<<<◌, ◌>>>◌, le_value, le_bytes}
use cheshire_can.Crc.{crc7}
use cheshire_can.Machine.{
  State, Cmd, ok, err, pure, fail, stuck, and_then, ◌>>=◌, ◌>>◌, when, return_int, check_assert,
  check_call, run,
}
use cheshire_can.Machine.Store.{Bytes}
use cheshire_can.Spi
use cheshire_can.Spi.{Dif, tx, rx, dummy, transact}

-- `spi_sdcard_t`; `spi_host` is part of the world. The chip selects are not negative.
pub record Card : Type 0 where
  pub spi_freq : ℕ
  pub csid : ℕ
  pub csid_dummy : ℕ

abbrev pub init_clock : ℕ
init_clock = 200000

pub r1b_timeout : ℕ
r1b_timeout = 100000

pub data_timeout : ℕ
data_timeout = 100000

-- `spi_sdcard_resp_t`
pub data Resp : Type 0 where
  r1 r1b r2 r3 r7 : Resp

-- `__spi_sdcard_resp_len`
abbrev pub resp_len : Resp → ℕ
resp_len r1 = 1
resp_len r1b = 1
resp_len r2 = 2
resp_len r3 = 5
resp_len r7 = 5

abbrev pub is_r1b : Resp → Bool
is_r1b r1b = true
is_r1b _ = false

-- What C leaves open: the value of `(1 << n) - 1` where `1 << n` does not fit an `int`, and the bytes
-- of a local that nothing was written to.
pub record Undefined : Type 0 where
  pub wide_mask : ℕ → ℕ
  pub stale : ℕ

-- `__spi_sdcard_build_cmd`
unfoldable pub build_cmd : ℕ → ℕ → ℕ
build_cmd opcode arg =
    let cmd0 = u8 opcode in
    let cmd1 = bit_or cmd0 (bit_and (u32 arg >>> 24) 0xff <<< 8) in
    let cmd2 = bit_or cmd1 (bit_and (u32 arg >>> 16) 0xff <<< 16) in
    let cmd3 = bit_or cmd2 (bit_and (u32 arg >>> 8) 0xff <<< 24) in
    let cmd4 = bit_or cmd3 (bit_and (u32 arg >>> 0) 0xff <<< 32) in
    let crcbyte = bit_or (crc7 (le_bytes 5 cmd4) <<< 1) 1 in bit_or (u64 (crcbyte <<< 40)) cmd4

module _ {W : Type 0} (dif : Dif W) (card : Card) where
  -- `__spi_sdcard_xfer_csaat`: the bytes received, if any
  unfoldable pub xfer_csaat : Bool → Option Bytes → ℕ → Cmd W Bytes
  xfer_csaat true (some bytes) len = fail 0x11
  xfer_csaat false (some bytes) len =
      transact (dif.transaction_csaat card.csid (tx (take len bytes) ∷ []))
  xfer_csaat true none len = transact (dif.transaction_csaat card.csid (rx len ∷ []))
  xfer_csaat false none len = transact (dif.transaction_csaat card.csid (dummy (8 * len) ∷ []))

  -- `__spi_sdcard_csfree`
  unfoldable pub csfree : Cmd W (Unit {0})
  csfree = transact (dif.transaction card.csid_dummy (dummy 8 ∷ [])) >> pure tt

  unfoldable pub receive_byte : Cmd W ℕ
  receive_byte = do bytes ← xfer_csaat true none 1; pure (get_or bytes 0 0)

  -- `do receive while (--timeout && again(byte)); if (timeout == 0) return code;`
  unfoldable pub poll : (ℕ → Bool) → ℕ → ℕ → Cmd W ℕ
  poll again code zero = stuck
  poll again code (suc timeout) = do
    byte ← receive_byte
    let rest = poll again code timeout
    if timeout == 0 then fail code else if again byte then rest else pure byte

  -- The rest of a response behind its first byte.
  unfoldable pub rest_of_response : Resp → Cmd W Bytes
  rest_of_response resp =
      if is_r1b resp
      then poll (λ byte. byte == 0) 0x13 r1b_timeout >> pure []
      else if resp_len resp - 1 != 0
      then xfer_csaat true none (resp_len resp - 1)
      else pure []

  -- `__spi_sdcard_cmd`: the bytes written to `rdata`
  unfoldable pub cmd : ℕ → Resp → Bool → Cmd W Bytes
  cmd c resp csaat = do
    when (c != 0) (xfer_csaat false (some (le_bytes 8 c)) (if c == 0xfd then 1 else 6) >> pure tt)
    when (bit_and c 0xff == 0x4c) (xfer_csaat true none 1 >> pure tt)
    first ← poll (λ byte. bit_and byte 0x80 != 0) 0x12 8
    rest ← rest_of_response resp
    when (not csaat) csfree
    pure (first ∷ rest)

module _ {W : Type 0} (dif : Dif W) (undef : Undefined) (card : Card) where
  unfoldable pub resp_mask : Resp → ℕ
  resp_mask resp =
      if ltb (8 * resp_len resp) 31
      then 2 ^ (8 * resp_len resp) - 1
      else undef.wide_mask (8 * resp_len resp)

  -- `__spi_sdcard_cmd_check`; the response fills the low bytes of a local of 64 bits
  unfoldable pub cmd_check : ℕ → Resp → Bool → ℕ → Cmd W (Unit {0})
  cmd_check c resp check_exp expected = do
    bytes ← cmd dif card c resp false
    let buf = u64 (le_value bytes + (undef.stale <<< (8 * resp_len resp)))
    let mask = resp_mask resp
    if check_exp && (bit_and buf mask != bit_and expected mask)
        then return_int (bit_and buf mask)
        else pure tt

  -- The loop of `__spi_sdcard_activate`, for a number of rounds that the code does not bound.
  unfoldable pub activate_loop : ℕ → Cmd W (Unit {0})
  activate_loop zero = stuck
  activate_loop (suc rounds) = do
    cmd_check 0x650000000077 r1 false 0
    ret ← cmd dif card 0x770000004069 r1 false
    let rest = activate_loop rounds
    if get_or ret 0 0 != 0 then rest else pure tt

  -- `__spi_sdcard_activate`
  unfoldable pub activate : ℕ → Cmd W (Unit {0})
  activate rounds = do
    xfer_csaat dif card false none 10
    cmd_check 0x950000000040 r1 true 0x01
    cmd_check 0x87aa01000048 r7 true 0xaa01000001
    activate_loop rounds
    cmd_check 0xfd000000007a r3 false 0
    cmd_check 0x150002000050 r1 true 0x00

-- The `dif_spi_host_config_t` of `spi_sdcard_init`; what it leaves out is zero.
abbrev pub config : ℕ → ℕ → Spi.Config
config core_freq clock = record {
  idle = 0;
  lead = 0;
  trail = 0;
  cpha = 0;
  cpol = 0;
  full_cycle = false;
  peripheral_clock_freq_hz = core_freq;
  spi_clock = clock;
}

module _ {W : Type 0} (dif : Dif W) (undef : Undefined) where
  -- `spi_sdcard_init` behind its checks
  unfoldable pub start : ℕ → Card → ℕ → Cmd W (Unit {0})
  start rounds card core_freq = do
    check_call dif.init
    run dif.reset
    check_call (dif.configure_cs (config core_freq init_clock) card.csid)
    check_call (dif.configure_cs (config core_freq init_clock) card.csid_dummy)
    run dif.enable
    check_call (dif.output_set_enabled true)
    activate dif undef card rounds
    check_call (dif.output_set_enabled false)
    check_call (dif.configure_cs (config core_freq card.spi_freq) card.csid)
    check_call (dif.configure_cs (config core_freq card.spi_freq) card.csid_dummy)
    check_call (dif.output_set_enabled true)

  -- `spi_sdcard_init`; `none` is a null handle
  unfoldable pub init : ℕ → Option Card → ℕ → Cmd W (Unit {0})
  init rounds none core_freq = fail 0x14
  init rounds (some card) core_freq = do
    check_assert 0x15 (ltb card.csid dif.num_cs)
    check_assert 0x15 (ltb card.csid_dummy dif.num_cs)
    check_assert 0x16 (card.spi_freq != 0)
    check_assert 0x17 (leb card.spi_freq (25 * 1000 * 1000))
    check_assert 0x18 (leb card.spi_freq core_freq)
    start rounds card core_freq
