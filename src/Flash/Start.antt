-- ===== src/Flash/Start.antt =====
-- Initialisation of the flash driver, `spi_s25fs512s_init` of sw/lib/hal/spi_s25fs512s.c.
use cheshire_can.Prelude.{ℕ, ◌≤◌, ◌<◌, ◌≡◌, refl, Bool, true, some, arith, ltb, leb, ◌!=◌}
use cheshire_can.Machine.{State}
use cheshire_can.Machine.Yields.{Yields, yields}
use cheshire_can.Spi
use cheshire_can.Spi.{Dif}
use cheshire_can.Flash.{Flash, flash_config, flash_init}

-- An SPI host whose calls that set it up succeed.
pub record Starts {W : Type 0} (dif : Dif W) : Type 0 where
  pub init_runs : (w : W) → (w' : W) × (dif.init w ≡ (0, w'))
  pub configure_runs :
      (config : Spi.Config) (csid : ℕ) (w : W)
      → (w' : W) × (dif.configure_cs config csid w ≡ (0, w'))
  pub output_runs : (on : Bool) (w : W) → (w' : W) × (dif.output_set_enabled on w ≡ (0, w'))

module _ {W : Type 0} (dif : Dif W) (flash : Flash) (core_freq : ℕ) (s : State W) where
  -- Initialisation of a handle of a chip select that there is, at a speed that is not zero and not above
  -- the core frequency: it returns zero, and leaves the memory alone.
  pub flash_init-Starts :
      Starts dif
      → flash.csid < dif.num_cs
      → 0 < flash.spi_freq
      → flash.spi_freq ≤ core_freq
      → Yields (λ s'. s'.mem ≡ s.mem) tt (flash_init dif (some flash) core_freq s)
  unfolding flash_init
  flash_init-Starts host selects runs slow =
      let select : ltb flash.csid dif.num_cs ≡ true = ground arith in
      let moves : (flash.spi_freq != 0) ≡ true = ground arith in
      let below : leb flash.spi_freq core_freq ≡ true = ground arith in
      let (a, init) = host.init_runs s.world in
      let (b, configured) =
        host.configure_runs (flash_config core_freq flash.spi_freq) flash.csid (dif.reset a) in
      let (c, output) = host.output_runs true (dif.enable b) in
      rw (select, moves, below, init, configured, output) (yields tt _ refl)
