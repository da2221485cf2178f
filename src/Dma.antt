-- ===== src/Dma.antt =====
-- The DMA driver, sw/include/dif/dma.h. The engine is hardware that reads and writes memory on its own.
pub mod Copy
pub mod Sim
mod Tests
use cheshire_can.Prelude.{ℕ, zero, suc, ◌+◌, ◌*◌, ◌^◌, Bool, bit_or, ◌==◌, if◌then◌else◌}
use cheshire_can.Machine.{State, Cmd, ok, pure, stuck, and_then, ◌>>=◌, ◌>>◌}

-- The registers at the engine's base, 64 bits each.
pub record Dma (W : Type 0) : Type 0 where
  pub read64 : ℕ → State W → ℕ × State W
  pub write64 : ℕ → ℕ → State W → State W

abbrev pub conf_offs : ℕ
conf_offs = 0x0

abbrev pub status_offs : ℕ
status_offs = 0x4

abbrev pub next_id_offs : ℕ
next_id_offs = 0x44

abbrev pub done_id_offs : ℕ
done_id_offs = 0x84

abbrev pub dst_offs : ℕ
dst_offs = 0xd0

abbrev pub src_offs : ℕ
src_offs = 0xd8

abbrev pub length_offs : ℕ
length_offs = 0xe0

abbrev pub dst_stride_offs : ℕ
dst_stride_offs = 0xe8

abbrev pub src_stride_offs : ℕ
src_stride_offs = 0xf0

abbrev pub reps_offs : ℕ
reps_offs = 0xf8

module _ {W : Type 0} (dma : Dma W) where
  abbrev pub read_dma : ℕ → Cmd W ℕ
  read_dma offs s = let (value, s') = dma.read64 offs s in ok value s'

  abbrev pub write_dma : ℕ → ℕ → Cmd W (Unit {0})
  write_dma offs value s = ok tt (dma.write64 offs value s)

  unfoldable pub dma_memcpy : ℕ → ℕ → ℕ → ℕ → Cmd W ℕ
  dma_memcpy dst src size conf = do
    write_dma src_offs src
    write_dma dst_offs dst
    write_dma length_offs size
    write_dma conf_offs conf
    read_dma next_id_offs

  -- The wait for a transfer, for a number of rounds that the code does not bound.
  unfoldable pub wait_done : ℕ → ℕ → Cmd W (Unit {0})
  wait_done zero tf_id = stuck
  wait_done (suc rounds) tf_id = do
    done ← read_dma done_id_offs
    let rest = wait_done rounds tf_id
    if done == tf_id then pure tt else rest

  unfoldable pub dma_blk_memcpy : ℕ → ℕ → ℕ → ℕ → ℕ → Cmd W (Unit {0})
  dma_blk_memcpy rounds dst src size conf = dma_memcpy dst src size conf >>= wait_done rounds

  unfoldable pub dma_2d_memcpy : ℕ → ℕ → ℕ → ℕ → ℕ → ℕ → ℕ → Cmd W ℕ
  dma_2d_memcpy dst src size dst_stride src_stride num_reps conf = do
    write_dma src_offs src
    write_dma dst_offs dst
    write_dma length_offs size
    write_dma conf_offs (bit_or conf (2 ^ 10))
    write_dma src_stride_offs src_stride
    write_dma dst_stride_offs dst_stride
    write_dma reps_offs num_reps
    read_dma next_id_offs

  unfoldable pub dma_2d_blk_memcpy : ℕ → ℕ → ℕ → ℕ → ℕ → ℕ → ℕ → ℕ → Cmd W (Unit {0})
  dma_2d_blk_memcpy rounds dst src size dst_stride src_stride num_reps conf =
      dma_2d_memcpy dst src size dst_stride src_stride num_reps conf >>= wait_done rounds

  unfoldable pub dma_get_status : Cmd W ℕ
  dma_get_status = read_dma status_offs
