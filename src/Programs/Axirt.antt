-- ===== src/Programs/Axirt.antt =====
-- The programs that test AXI-REALM, sw/tests/axirt_*.spm.c. Its driver is not in the repository: its
-- functions are parameters.
use cheshire_can.Prelude.{
  ℕ, zero, suc, ◌+◌, ◌-◌, ◌*◌, ◌%◌, ◌^◌, Bool, true, false, [], ◌∷◌, ◌==◌, ◌!=◌, ltb, leb,
  if◌then◌else◌,
}
use cheshire_can.Word.{u32, u64, ◌<<<◌, ◌>>>◌, le_value, le_bytes}
use cheshire_can.Machine.{Cmd, pure, stuck, ◌>>=◌, ◌>>◌, check_assert, return_int, run, load, store}
use cheshire_can.Machine.Store.{Bytes}
use cheshire_can.Clint.{read_clock, clint_get_core_freq}
use cheshire_can.Dma.{dma_blk_memcpy, dma_2d_memcpy}
use cheshire_can.Boot.{reg}
use cheshire_can.Programs.{
  Bench, minus, uncached, dma_bit, uart_bit, axirt_bit, require, rounds, write_text,
}

-- The functions of axirt.h, and reads of its registers.
pub record Axirt (W : Type 0) : Type 0 where
  pub claim : ℕ → ℕ → W → W
  pub set_len_limit_group : ℕ → ℕ → W → W
  pub set_region : ℕ → ℕ → ℕ → ℕ → W → W
  pub set_budget : ℕ → ℕ → ℕ → W → W
  pub set_period : ℕ → ℕ → ℕ → W → W
  pub enable : ℕ → W → W
  pub read32 : ℕ → W → ℕ × W

-- AXI_RT_PARAM_NUM_SUB
abbrev pub num_sub : ℕ
num_sub = 2

-- "Hello AXI-RT!\r\n"
abbrev pub axirt_text : Bytes
axirt_text =
    0x48 ∷ 0x65 ∷ 0x6c ∷ 0x6c ∷ 0x6f ∷ 0x20 ∷ 0x41 ∷ 0x58 ∷ 0x49 ∷ 0x2d ∷ 0x52 ∷ 0x54 ∷ 0x21 ∷ 0x0d
    ∷ 0x0a ∷ 0 ∷ []

module _ {W : Type 0} (bench : Bench W) (axirt : Axirt W) where
  -- The regions, budget and period of a manager.
  abbrev pub configure : ℕ → ℕ → ℕ → Cmd W (Unit {0})
  configure budget period id = do
    run (axirt.set_region 0 0xffffffff 0 id)
    run (axirt.set_region 0x100000000 0xffffffffffffffff 1 id)
    run (axirt.set_budget budget 0 id)
    run (axirt.set_budget budget 1 id)
    run (axirt.set_period period 0 id)
    run (axirt.set_period period 1 id)

  abbrev pub read_axirt : ℕ → Cmd W ℕ
  read_axirt offs = read_clock bench.board.clint (axirt.read32 offs)

  -- The loop over the harts from `id` on, with so many left.
  unfoldable pub configure_harts : ℕ → ℕ → ℕ → ℕ → Cmd W (Unit {0})
  configure_harts budget period zero id = pure tt
  configure_harts budget period (suc left) id = do
    configure budget period id
    configure_harts budget period left (id + 1)

  -- A count that is an `int`: there is no round of a loop up to a negative one.
  abbrev pub count_of : ℕ → ℕ
  count_of n = if ltb n (2 ^ 31) then n else 0

  -- What both tests of budgets begin with: the units of all harts and of the DMA engine are set up and
  -- enabled. The result is the number of the engine's manager.
  unfoldable pub set_up : ℕ → Cmd W ℕ
  set_up dma_budget = do
    require bench.board (minus 1) axirt_bit
    require bench.board (minus 2) dma_bit
    check_assert (minus 3) (leb 2 num_sub)
    num_int_harts ← reg bench.board 0x4c
    run (axirt.claim 1 1)
    run (axirt.set_len_limit_group 0 0)
    run (axirt.set_len_limit_group 0 1)
    configure_harts 0x10000000 0x10000000 (count_of num_int_harts) 0
    let chs_dma_id = num_int_harts + 1
    configure dma_budget 0x10000000 chs_dma_id
    run (axirt.enable (u64 (1 <<< num_int_harts) - 1))
    run (axirt.enable (u64 (1 <<< chs_dma_id)))
    pure chs_dma_id

  abbrev pub golden : ℕ → ℕ
  golden i = u64 (0xcafedeadbaadf00d + i)

  -- `for (...) dma_src[i] = golden[i];`, from the `i`-th beat on
  unfoldable pub fill_beats : ℕ → ℕ → ℕ → Cmd W (Unit {0})
  fill_beats src zero i = pure tt
  fill_beats src (suc left) i = do
    store (src + 8 * i) (le_bytes 8 (golden i))
    fill_beats src left (i + 1)

  -- `for (...) CHECK_ASSERT(20 + i, dma_dst[i] == golden[i]);`
  unfoldable pub check_beats : ℕ → ℕ → ℕ → Cmd W (Unit {0})
  check_beats dst zero i = pure tt
  check_beats dst (suc left) i = do
    bytes ← load (dst + 8 * i) 8
    check_assert (20 + i) (le_value bytes == golden i)
    check_beats dst left (i + 1)

  abbrev pub differs : Bool → ℕ
  differs true = 1
  differs false = 0

  -- `main` of axirt_budget.spm.c
  unfoldable pub axirt_budget_main : Cmd W (Unit {0})
  axirt_budget_main = do
    chs_dma_id ← set_up 0x10000000
    let dma_src = bench.src_cached + uncached
    let dma_dst = bench.dst_cached + uncached
    fill_beats dma_src 128 0
    dma_blk_memcpy bench.dma (rounds bench) dma_dst dma_src 1024 3
    check_beats dma_dst 128 0
    read_left ← read_axirt (0x1d4 + num_sub * chs_dma_id * 4)
    write_left ← read_axirt (0x1a4 + num_sub * chs_dma_id * 4)
    let r_difference = differs (u32 (0x10000000 + 2 ^ 32 - read_left) != 1024)
    let w_difference = differs (u32 (0x10000000 + 2 ^ 32 - write_left) != 1024)
    return_int (differs (read_left != write_left) + r_difference + w_difference)

  -- `while (end_wait_cycles > get_mcycle());`, for a number of rounds that the code does not bound
  unfoldable pub wait_cycles : ℕ → ℕ → Cmd W (Unit {0})
  wait_cycles zero end_wait_cycles = stuck
  wait_cycles (suc left) end_wait_cycles = do
    now ← read_clock bench.board.clint bench.board.clint.mcycle
    let rest = wait_cycles left end_wait_cycles
    if ltb now end_wait_cycles then rest else pure tt

  -- `main` of axirt_budget_isolate.spm.c
  unfoldable pub axirt_budget_isolate_main : Cmd W (Unit {0})
  axirt_budget_isolate_main = do
    chs_dma_id ← set_up 1024
    let dma_src = bench.src_cached + uncached
    let dma_dst = bench.dst_cached + uncached
    fill_beats dma_src 32 0
    dma_2d_memcpy bench.dma dma_dst dma_src 256 0 0 8 3
    now ← read_clock bench.board.clint bench.board.clint.mcycle
    wait_cycles (rounds bench) (u64 (now + 5000))
    isolated ← read_axirt 0x268
    return_int (if (isolated >>> chs_dma_id) % 2 == 1 then 0 else 1)

  -- `main` of axirt_hello.spm.c
  unfoldable pub axirt_hello_main : Cmd W (Unit {0})
  axirt_hello_main = do
    require bench.board (minus 1) axirt_bit
    require bench.board (minus 2) dma_bit
    require bench.board (minus 3) uart_bit
    check_assert (minus 4) (leb 2 num_sub)
    store bench.src_cached axirt_text
    rtc_freq ← reg bench.board 0x44
    reset_freq ← clint_get_core_freq bench.board.clint (rounds bench) rtc_freq 2500
    run (axirt.claim 1 1)
    run (axirt.set_len_limit_group 2 0)
    configure 8 100 0
    num_int_harts ← reg bench.board 0x4c
    let chs_dma_id = num_int_harts + 1
    configure 0x10000000 0x10000000 chs_dma_id
    run (axirt.enable 0x5)
    write_text bench bench.src_cached 15 reset_freq
