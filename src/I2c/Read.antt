-- ===== src/I2c/Read.antt =====
-- Reading from the EEPROM, `i2c_24fc1025_read` of sw/lib/hal/i2c_24fc1025.c.
use cheshire_can.Prelude.{ℕ, ◌≡◌}
use cheshire_can.Machine.{State}
use cheshire_can.Machine.Store.{Memory, load_bytes, store_bytes}
use cheshire_can.Machine.Yields.{Yields}
use cheshire_can.Clint.{Clint}
use cheshire_can.Clint.Frequency.{Steady}
use cheshire_can.I2c.{I2c}
use cheshire_can.I2c.Eeprom.{Eeprom}
use cheshire_can.I2c.Address.{IsIdle}

module _ {W : Type 0} {i2c : I2c W} {clint : Clint W} {image : Memory} {patience ratio step : ℕ}
    (bus : Eeprom i2c clint image patience) (steady : Steady clint ratio step) where
  -- The bus is idle, and so many bytes of the EEPROM are in memory.
  abbrev pub HasRead : ℕ → ℕ → ℕ → State W → State W → Type 0
  HasRead buf addr n s s' =
      IsIdle bus s'.world × (s'.mem ≡ store_bytes buf (load_bytes addr n image) s.mem)
