-- ===== src/I2c/Write.antt =====
-- Writing to the EEPROM, `i2c_24fc1025_write` of sw/lib/hal/i2c_24fc1025.c.
use cheshire_can.Prelude.{ℕ, ◌/◌, ◌%◌, ◌^◌, List, [], ◌∷◌, ◌++◌, ◌≡◌}
use cheshire_can.Machine.{State}
use cheshire_can.Machine.Store.{Memory, load_bytes}
use cheshire_can.Machine.Yields.{Yields}
use cheshire_can.Clint.{Clint}
use cheshire_can.Clint.Frequency.{Steady}
use cheshire_can.I2c.{I2c}
use cheshire_can.I2c.Eeprom.{Eeprom, page_write}
use cheshire_can.I2c.Address.{IsIdle}

module _ {W : Type 0} {i2c : I2c W} {clint : Clint W} {image : Memory} {patience ratio step : ℕ}
    (bus : Eeprom i2c clint image patience) (steady : Steady clint ratio step) where
  -- One page write of so many bytes has been sent, and the bus is idle.
  abbrev pub HasSent : ℕ → ℕ → ℕ → State W → State W → Type 0
  HasSent buf addr n s s' =
      IsIdle bus s'.world
      × (bus.sent s'.world
          ≡ bus.sent s.world
            ++ page_write (addr / 2 ^ 8) (addr % 2 ^ 8) (load_bytes buf n s.mem) ∷ [])
      × (s'.mem ≡ s.mem)
