-- ===== src/Sdcard/Write.antt =====
-- Writing blocks: `spi_sdcard_write_blocks` of sw/lib/hal/spi_sdcard.c.
pub mod Sound
use cheshire_can.Prelude.{
  ℕ, zero, suc, ◌+◌, ◌-◌, ◌*◌, Bool, true, false, none, some, [], ◌∷◌, bit_and, ◌==◌, ltb,
  if◌then◌else◌, get_or,
}
use cheshire_can.Word.{u64, min_c, le_bytes}
use cheshire_can.Crc.{crc16}
use cheshire_can.Machine.{Cmd, ok, pure, fail, stuck, and_then, ◌>>=◌, ◌>>◌, check_assert, load}
use cheshire_can.Spi.{Dif}
use cheshire_can.Sdcard.{
  Card, Undefined, r1, r1b, xfer_csaat, receive_byte, csfree, poll, cmd, build_cmd,
}

module _ {W : Type 0} (dif : Dif W) (card : Card) where
  -- A block of 512 bytes in chunks of at most the FIFO's size.
  unfoldable pub write_chunks : ℕ → ℕ → ℕ → Cmd W (Unit {0})
  write_chunks zero ptr offs = stuck
  write_chunks (suc rounds) ptr offs =
      let chunk_len = min_c (4 * dif.rx_depth) (512 - offs) in
      let rest = write_chunks rounds ptr (offs + 4 * dif.rx_depth) in
      if ltb offs 512
      then (do
        bytes ← load (ptr + offs) chunk_len
        xfer_csaat dif card false (some bytes) chunk_len
        rest)
      else pure tt

  -- One round of the loop over blocks.
  unfoldable pub write_block : ℕ → ℕ → Bool → ℕ → Cmd W (Unit {0})
  write_block buf tok compute_crc b = do
    xfer_csaat dif card false (some (tok ∷ [])) 1
    let block_src = u64 (buf + 512 * b)
    write_chunks 513 block_src 0
    content ← load block_src 512
    let crc = if compute_crc then crc16 content else 0
    xfer_csaat dif card false (some (le_bytes 2 crc)) 2
    response ← receive_byte dif card
    check_assert 0x22 (bit_and response 0x1f == 0x05)
    cmd dif card 0 r1b true
    pure tt

  -- The blocks from `b` on, as many as are left.
  unfoldable pub write_loop : ℕ → ℕ → Bool → ℕ → ℕ → Cmd W (Unit {0})
  write_loop buf tok compute_crc zero b = pure tt
  write_loop buf tok compute_crc (suc left) b = do
    write_block buf tok compute_crc b
    write_loop buf tok compute_crc left (b + 1)

  -- `spi_sdcard_write_blocks`
  unfoldable pub write_blocks : ℕ → ℕ → ℕ → Bool → Cmd W (Unit {0})
  write_blocks buf block len compute_crc = if len == 0 then pure tt else do
    cmd dif card (build_cmd (if ltb 1 len then 0x59 else 0x58) block) r1 true
    xfer_csaat dif card false none 1
    write_loop buf (if ltb 1 len then 0xfc else 0xfe) compute_crc len 0
    if ltb 1 len then cmd dif card 0xfd r1b false >> pure tt else csfree dif card
