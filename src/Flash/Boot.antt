-- ===== src/Flash/Boot.antt =====
-- Booting from the flash chip: the table's search over the driver's reads.
use cheshire_can.Prelude.{ℕ, ◌+◌, ◌*◌, ◌^◌, ◌≤◌, ◌<◌, ◌≡◌, ◌⊎◌, Option}
use cheshire_can.Machine.{State, Cmd}
use cheshire_can.Spi.{Dif}
use cheshire_can.Gpt.{Frame, Guid, boot_part_else_raw}
use cheshire_can.Gpt.Choice.{extent_at}
use cheshire_can.Gpt.Boot.{IsLaunch, IsSound, boot_part_else_raw-IsLaunch}
use cheshire_can.Flash.{Flash, single_read}
use cheshire_can.Flash.Link.{Link}
use cheshire_can.Flash.Read.{flash_reader}

module _ {W : Type 0} {dif : Dif W} (flash : Flash) {chip : ℕ → ℕ} {patience : ℕ}
    (link : Link dif flash.csid chip patience) where
  -- Booting with the flash driver's reads, at a speed that they allow, from a chip whose first entry is
  -- sound, into a buffer of less than 2^63 bytes: it enters the next stage with the chip's choice in the
  -- buffer, which it fits, and the pointers in the scratch registers, from any state.
  pub boot_part_else_raw-single_read :
      (frame : Frame) (boot_next_stage : ℕ → Cmd W (Unit {0}))
      (base_regs self priv gp code_buf max_lbas : ℕ) (tguid pguid : Option Guid) (s : State W)
      → 0 < dif.rx_depth
      → flash.spi_freq < 50000000
      → 4 * dif.rx_depth + 16 < 2 ^ 63
      → 0 < max_lbas
      → 0x200 * max_lbas ≤ 2 ^ 63
      → IsSound max_lbas (extent_at chip 0)
      → (code_buf + 0x200 * max_lbas ≤ base_regs) ⊎ (base_regs + 0x10 ≤ code_buf)
      → (s' : State W) × (boot_part_else_raw
            (single_read dif flash)
            frame
            boot_next_stage
            base_regs
            self
            priv
            gp
            code_buf
            max_lbas
            tguid
            pguid
            s
          ≡ boot_next_stage code_buf s')
        × IsLaunch chip max_lbas tguid pguid code_buf base_regs self priv gp s'.mem
  boot_part_else_raw-single_read frame boot_next_stage base_regs self priv gp code_buf max_lbas
        tguid pguid s depth slow small pos fits sound apart =
      boot_part_else_raw-IsLaunch (flash_reader flash link depth slow small) frame boot_next_stage
        base_regs self priv gp code_buf max_lbas tguid pguid pos fits sound apart tt
