-- ===== src/Sdcard/Read.antt =====
-- Reading blocks: `__spi_sdcard_read_blocks` and `__spi_sdcard_read` of sw/lib/hal/spi_sdcard.c.
pub mod Chunks
pub mod Block
pub mod Placement
pub mod Loop
pub mod Sound
use cheshire_can.Prelude.{
  ℕ, zero, suc, ◌+◌, ◌-◌, ◌*◌, ◌/◌, ◌%◌, ◌^◌, Bool, true, false, ◌&&◌, ◌||◌, not, none, some, ◌==◌,
  ◌!=◌, ltb, leb, if◌then◌else◌,
}
use cheshire_can.Word.{u64, min_c, sub64, le_value}
use cheshire_can.Crc.{crc16}
use cheshire_can.Machine.{
  Cmd, ok, pure, fail, stuck, and_then, ◌>>=◌, ◌>>◌, return_int, check_assert, load, store, modify,
}
use cheshire_can.Machine.Store.{Memory, copy_bytes}
use cheshire_can.Spi.{Dif}
use cheshire_can.Sdcard.{
  Card, Undefined, r1, r1b, data_timeout, xfer_csaat, csfree, poll, cmd, cmd_check, build_cmd,
}

-- The blocks that are only partly wanted go through the swap buffer.
abbrev pub is_first : ℕ → ℕ → Bool
is_first b first_offs = b == 0 && first_offs != 0

abbrev pub is_last : ℕ → ℕ → ℕ → Bool
is_last b len last_len = b == sub64 len 1 && last_len != 512

-- The memory once the wanted part of a block is copied out of the swap buffer.
unfoldable pub copied : Bool → Bool → ℕ → ℕ → ℕ → ℕ → Memory → Memory
copied true true dst swap first_offs last_len mem =
    copy_bytes (u64 (dst + first_offs)) (swap + first_offs) (sub64 last_len first_offs) mem
copied true false dst swap first_offs last_len mem =
    copy_bytes (u64 (dst + first_offs)) (swap + first_offs) (sub64 512 first_offs) mem
copied false true dst swap first_offs last_len mem = copy_bytes dst swap last_len mem
copied false false dst swap first_offs last_len mem = mem

module _ {W : Type 0} (dif : Dif W) (card : Card) where
  -- A block of 512 bytes in chunks of at most the receive FIFO's size.
  unfoldable pub read_chunks : ℕ → ℕ → ℕ → Cmd W (Unit {0})
  read_chunks zero ptr offs = stuck
  read_chunks (suc rounds) ptr offs =
      let chunk_len = min_c (4 * dif.rx_depth) (512 - offs) in
      let rest = read_chunks rounds ptr (offs + 4 * dif.rx_depth) in
      if ltb offs 512
      then (do bytes ← xfer_csaat dif card true none chunk_len; store (ptr + offs) bytes; rest)
      else pure tt

  -- One round of the loop over blocks. `base` is the destination, aligned down to a block boundary.
  unfoldable pub read_block : ℕ → ℕ → ℕ → ℕ → ℕ → Bool → ℕ → Cmd W (Unit {0})
  read_block base len swap first_offs last_len check_crc b = do
    token ← poll dif card (λ byte. byte == 0xff) 0x19 data_timeout
    check_assert 0x20 (token == 0xfe)
    let first_block = is_first b first_offs
    let last_block = is_last b len last_len
    let block_dst = u64 (base + 512 * b)
    let block_buf = if first_block || last_block then swap else block_dst
    read_chunks 513 block_buf 0
    crc ← xfer_csaat dif card true none 2
    content ← load block_buf 512
    check_assert 0x21 (not (check_crc && le_value crc != crc16 content))
    modify (copied first_block last_block block_dst swap first_offs last_len)

  -- The blocks from `b` on, as many as are left.
  unfoldable pub read_loop : ℕ → ℕ → ℕ → ℕ → ℕ → Bool → ℕ → ℕ → Cmd W (Unit {0})
  read_loop base len swap first_offs last_len check_crc zero b = pure tt
  read_loop base len swap first_offs last_len check_crc (suc left) b = do
    read_block base len swap first_offs last_len check_crc b
    read_loop base len swap first_offs last_len check_crc left (b + 1)

module _ {W : Type 0} (dif : Dif W) (undef : Undefined) (card : Card) where
  -- `__spi_sdcard_read_blocks`
  unfoldable pub read_blocks : ℕ → ℕ → ℕ → ℕ → ℕ → ℕ → Bool → Cmd W (Unit {0})
  read_blocks buf block len swap first_offs last_len check_crc = if len == 0 then pure tt else do
    cmd dif card (build_cmd (if ltb 1 len then 0x52 else 0x51) block) r1 true
    read_loop dif card (sub64 buf first_offs) len swap first_offs last_len check_crc len 0
    if ltb 1 len then cmd_check dif undef card 0x61000000004c r1b false 0 else csfree dif card

  -- `__spi_sdcard_read`; `swap` is where its local buffer lies
  unfoldable pub read : ℕ → ℕ → ℕ → ℕ → Bool → Cmd W (Unit {0})
  read swap buf addr len check_crc =
      if len == 0
      then pure tt
      else let pte_offs = u64 (addr + len) % 512 in
        read_blocks buf (addr / 512) (u64 (len + addr % 512 + 511) / 512) swap (addr % 512)
          (if pte_offs == 0 then 512 else pte_offs) check_crc

  -- `spi_sdcard_read_checkcrc` and `spi_sdcard_read_ignorecrc`
  unfoldable pub read_checkcrc : ℕ → ℕ → ℕ → ℕ → Cmd W (Unit {0})
  read_checkcrc swap buf addr len = read swap buf addr len true

  unfoldable pub read_ignorecrc : ℕ → ℕ → ℕ → ℕ → Cmd W (Unit {0})
  read_ignorecrc swap buf addr len = read swap buf addr len false
