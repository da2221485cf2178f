-- ===== src/Spi.antt =====
-- What the drivers use of the SPI host driver of OpenTitan (sw/device/lib/dif/dif_spi_host.h), which
-- is not in the repository: its calls are parameters. A return of zero is success.
pub mod Wire
use cheshire_can.Prelude.{ℕ, Bool, List, ◌%◌, ◌^◌, ◌==◌, if◌then◌else◌}
use cheshire_can.Machine.{Run, ok, err, Cmd}
use cheshire_can.Machine.Store.{Bytes}

-- A segment of a transaction. A buffer to send is given by its bytes, a buffer to fill by its length.
-- All segments are of standard width, all addresses of four bytes.
pub data Segment : Type 0 where
  opcode : ℕ → Segment
  address : ℕ → Segment
  tx : Bytes → Segment
  rx : ℕ → Segment
  dummy : ℕ → Segment

pub record Config : Type 0 where
  pub idle : ℕ
  pub lead : ℕ
  pub trail : ℕ
  pub cpha : ℕ
  pub cpol : ℕ
  pub full_cycle : Bool
  pub peripheral_clock_freq_hz : ℕ
  pub spi_clock : ℕ

pub record Dif (W : Type 0) : Type 0 where
  -- SPI_HOST_PARAM_NUM_C_S and SPI_HOST_PARAM_RX_DEPTH of the generated spi_host_regs.h
  pub num_cs : ℕ
  pub rx_depth : ℕ
  pub init : W → ℕ × W
  pub reset : W → W
  pub configure_cs : Config → ℕ → W → ℕ × W
  pub enable : W → W
  pub output_set_enabled : Bool → W → ℕ × W
  -- The code, the bytes received by the segments that receive, and the new world. The second keeps
  -- the chip select asserted after the transaction.
  pub transaction : ℕ → List Segment → W → ℕ × Bytes × W
  pub transaction_csaat : ℕ → List Segment → W → ℕ × Bytes × W

-- `CHECK_CALL` of a transaction
abbrev pub transact : {W : Type 0} → (W → ℕ × Bytes × W) → Cmd W Bytes
transact f s =
    let (code, bytes, w) = f s.world in
    if code % 2 ^ 32 == 0
    then ok bytes (record s { world = w })
    else err (code % 2 ^ 32) (record s { world = w })
