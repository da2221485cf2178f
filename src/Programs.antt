-- ===== src/Programs.antt =====
-- The programs that test the hardware, sw/tests/*.c, and `chs_hw_feature_present` of sw/include/util.h. A
-- program ends with zero if the test passes. The locals that they take the address of lie in memory, and
-- the scratchpad is mapped a second time, uncached, at a distance of 0x4000000.
pub mod Axirt
pub mod Texts
pub mod Copies
pub mod Rows
mod Tests
use cheshire_can.Prelude.{
  ℕ, zero, suc, ◌+◌, ◌-◌, ◌*◌, ◌%◌, ◌^◌, Bool, true, false, List, [], ◌∷◌, bit_and, bit_or, ◌==◌,
  ◌!=◌, if◌then◌else◌, get_or,
}
use cheshire_can.Word.{u32, le_bytes}
use cheshire_can.Machine.{
  Cmd, ok, err, pure, fail, and_then, ◌>>=◌, ◌>>◌, check_assert, return_int, load, store,
}
use cheshire_can.Machine.Store.{Bytes}
use cheshire_can.Uart.{uart_init, uart_write_str, uart_write_flush, baudrate}
use cheshire_can.Clint.{clint_get_core_freq}
use cheshire_can.Dma.{Dma, dma_blk_memcpy, dma_2d_blk_memcpy}
use cheshire_can.Boot.{Board, reg}

-- The board, the DMA engine, where the locals lie, and what calling code at an address makes of its result.
pub record Bench (W : Type 0) : Type 0 where
  pub board : Board W
  pub dma : Dma W
  pub src_cached : ℕ
  pub dst_cached : ℕ
  pub gold : ℕ
  pub payload1 : ℕ
  pub payload2 : ℕ
  pub call : ℕ → Cmd W ℕ

abbrev pub uart_bit : ℕ
uart_bit = 2

abbrev pub dma_bit : ℕ
dma_bit = 6

abbrev pub serial_link_bit : ℕ
serial_link_bit = 7

abbrev pub axirt_bit : ℕ
axirt_bit = 10

-- A negative return value.
abbrev pub minus : ℕ → ℕ
minus n = 2 ^ 32 - n

-- The distance of the uncached mapping.
abbrev pub uncached : ℕ
uncached = 0x4000000

-- "This is a DMA test", with its zero
abbrev pub dma_text : Bytes
dma_text =
    0x54 ∷ 0x68 ∷ 0x69 ∷ 0x73 ∷ 0x20 ∷ 0x69 ∷ 0x73 ∷ 0x20 ∷ 0x61 ∷ 0x20 ∷ 0x44 ∷ 0x4d ∷ 0x41 ∷ 0x20
    ∷ 0x74 ∷ 0x65 ∷ 0x73 ∷ 0x74 ∷ 0 ∷ []

-- "This is a DMA test!", with its zero
abbrev pub dma_1d_gold : Bytes
dma_1d_gold =
    0x54 ∷ 0x68 ∷ 0x69 ∷ 0x73 ∷ 0x20 ∷ 0x69 ∷ 0x73 ∷ 0x20 ∷ 0x61 ∷ 0x20 ∷ 0x44 ∷ 0x4d ∷ 0x41 ∷ 0x20
    ∷ 0x74 ∷ 0x65 ∷ 0x73 ∷ 0x74 ∷ 0x21 ∷ 0 ∷ []

-- "This ishis is is is as is a DMA test!", with its zero
abbrev pub dma_2d_gold : Bytes
dma_2d_gold =
    0x54 ∷ 0x68 ∷ 0x69 ∷ 0x73 ∷ 0x20 ∷ 0x69 ∷ 0x73 ∷ 0x68 ∷ 0x69 ∷ 0x73 ∷ 0x20 ∷ 0x69 ∷ 0x73 ∷ 0x20
    ∷ 0x69 ∷ 0x73 ∷ 0x20 ∷ 0x69 ∷ 0x73 ∷ 0x20 ∷ 0x61 ∷ 0x73 ∷ 0x20 ∷ 0x69 ∷ 0x73 ∷ 0x20 ∷ 0x61
    ∷ 0x20 ∷ 0x44 ∷ 0x4d ∷ 0x41 ∷ 0x20 ∷ 0x74 ∷ 0x65 ∷ 0x73 ∷ 0x74 ∷ 0x21 ∷ 0 ∷ []

-- "Hello World!\r\n"
abbrev pub hello_text : Bytes
hello_text =
    0x48 ∷ 0x65 ∷ 0x6c ∷ 0x6c ∷ 0x6f ∷ 0x20 ∷ 0x57 ∷ 0x6f ∷ 0x72 ∷ 0x6c ∷ 0x64 ∷ 0x21 ∷ 0x0d ∷ 0x0a
    ∷ 0 ∷ []

module _ {W : Type 0} where
  unfoldable pub chs_hw_feature_present : Board W → ℕ → Cmd W Bool
  chs_hw_feature_present board bit = do
    features_bitmap ← reg board 0x50
    pure (bit_and features_bitmap (2 ^ bit) != 0)

  -- `CHECK_ASSERT` of a feature
  abbrev pub require : Board W → ℕ → ℕ → Cmd W (Unit {0})
  require board code bit = chs_hw_feature_present board bit >>= check_assert code

  -- `for (...) dst[i] = src[i];`, for as many bytes as are left
  unfoldable pub copy_loop : ℕ → ℕ → ℕ → Cmd W (Unit {0})
  copy_loop dst src zero = pure tt
  copy_loop dst src (suc left) = do
    byte ← load src 1
    store dst byte
    copy_loop (dst + 1) (src + 1) left

  -- `for (...) errors -= (dst[i] == gold[i]);`
  unfoldable pub count_errors : ℕ → ℕ → ℕ → ℕ → Cmd W ℕ
  count_errors dst gold zero errors = pure errors
  count_errors dst gold (suc left) errors = do
    a ← load dst 1
    b ← load gold 1
    count_errors (dst + 1) (gold + 1) left
        (errors - (if get_or a 0 0 == get_or b 0 0 then 1 else 0))

module _ {W : Type 0} (bench : Bench W) where
  abbrev pub rounds : ℕ
  rounds = bench.board.rounds

  -- `main` of dma_1d.spm.c
  unfoldable pub dma_1d_main : Cmd W (Unit {0})
  dma_1d_main = do
    require bench.board (minus 1) dma_bit
    store bench.src_cached dma_text
    store bench.gold dma_1d_gold
    copy_loop (bench.src_cached + uncached) bench.src_cached 19
    store (bench.dst_cached + uncached + 18) (0x21 ∷ [])
    store (bench.dst_cached + uncached + 19) (0 ∷ [])
    dma_blk_memcpy bench.dma rounds (bench.dst_cached + uncached) (bench.src_cached + uncached) 18 0
    errors ← count_errors (bench.dst_cached + uncached) bench.gold 20 20
    return_int errors

  -- `main` of dma_2d.spm.c
  unfoldable pub dma_2d_main : Cmd W (Unit {0})
  dma_2d_main = do
    require bench.board (minus 1) dma_bit
    store bench.src_cached dma_text
    store bench.gold dma_2d_gold
    copy_loop (bench.src_cached + uncached) bench.src_cached 19
    store (bench.dst_cached + uncached + 36) (0x21 ∷ [])
    store (bench.dst_cached + uncached + 37) (0 ∷ [])
    dma_2d_blk_memcpy bench.dma rounds (bench.dst_cached + uncached) (bench.src_cached + uncached)
        15 7 1 4 0
    errors ← count_errors (bench.dst_cached + uncached) bench.gold 38 38
    return_int errors

  -- `main` of dma_slink.spm.c
  unfoldable pub dma_slink_main : Cmd W (Unit {0})
  dma_slink_main = do
    require bench.board (minus 1) dma_bit
    require bench.board (minus 2) serial_link_bit
    store bench.src_cached dma_text
    store bench.gold dma_1d_gold
    let dst = bench.dst_cached + uncached
    let rem = bench.dst_cached + uncached + 0x100000000
    copy_loop rem bench.src_cached 19
    store (dst + 18) (0x21 ∷ [])
    store (dst + 19) (0 ∷ [])
    dma_blk_memcpy bench.dma rounds dst rem 18 0
    errors ← count_errors dst bench.gold 20 20
    return_int errors

  -- `main` of spm_uncached.spm.c
  unfoldable pub spm_uncached_main : Cmd W (Unit {0})
  spm_uncached_main = do
    require bench.board (minus 1) dma_bit
    outcome1 ← bench.call bench.payload1
    dma_blk_memcpy bench.dma rounds bench.payload1 bench.payload2 64 (bit_or (2 ^ 0) (2 ^ 1))
    outcome2 ← bench.call (bench.payload1 + uncached)
    return_int (if u32 (outcome1 + outcome2) != 3 then 1 else 0)

  -- A text is written to the serial line, from where it lies.
  abbrev pub write_text : ℕ → ℕ → ℕ → Cmd W (Unit {0})
  write_text str len reset_freq = do
    uart_init bench.board.uart reset_freq baudrate
    uart_write_str bench.board.uart rounds str len
    uart_write_flush bench.board.uart rounds

  -- `main` of helloworld.c
  unfoldable pub helloworld_main : Cmd W (Unit {0})
  helloworld_main = do
    store bench.src_cached hello_text
    rtc_freq ← reg bench.board 0x44
    reset_freq ← clint_get_core_freq bench.board.clint rounds rtc_freq 2500
    write_text bench.src_cached 14 reset_freq
