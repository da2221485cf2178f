-- ===== src/Lib.antt =====
-- A model of the firmware library of Cheshire, a RISC-V system on chip that boots from an SD card, a
-- flash chip, an EEPROM or a debug link. The firmware is C without an operating system.
--
-- The parts, and the files that model them:
--   sw/include/util.h           Word, Machine     words, early returns with a code
--   sw/lib/hal/spi_sdcard.c     Crc               the two checksums (lines 30 to 88)
--                               Sdcard            transfers, commands, initialisation
--                               Sdcard/Read       reads of any alignment, over blocks
--                               Sdcard/Write      writes of whole blocks
--   sw/lib/gpt.c                Gpt               the partition table, and what is booted
--   sw/lib/hal/spi_s25fs512s.c  Flash             the flash chip: reads, and flashing of sectors
--   sw/lib/dif/uart.c           Uart              the serial line, and strings over it
--   sw/lib/hal/uart_debug.c     Uart              the debug server (Uart/Session is its protocol)
--   sw/lib/dif/clint.c          Clint             the timer: waits, and the measured core frequency
--   sw/lib/hal/i2c_24fc1025.c   I2c               the EEPROM driver
--   sw/include/dif/dma.h        Dma               the copies by the DMA engine
--   hw/bootrom/cheshire_bootrom.c, sw/boot/zsl.c, sw/boot/flash.c
--                               Boot              the boot ROM, the zero-stage loader, the flash tool
--   sw/tests/*.c                Programs          the programs that test the hardware
--   target/sim/src/elfloader.cpp Elf              the loader of the simulation: ELF files
-- Prelude has what all of them share: the native numbers, Boolean tests, lists measured by them.
--
-- A function of the C code is a command of the same name (without `__spi_sdcard_` and the like), from
-- a state to a result and a new state (Machine). The state is the memory, a function from addresses
-- to bytes (Machine/Store), and a world of devices that only outside code looks into. An early return
-- of a nonzero code is an error, and a loop that does not end in its rounds hangs. Machine/Yields has
-- the two notions of total correctness: a run that returns, with what then holds, and a run that
-- fails with a code, on its own or with what then holds.
--
-- Outside of the repository are the SPI host driver of OpenTitan, whose calls are the record Dif of
-- Spi, and what is documented of them, the record Wire of Spi/Wire: transactions move bytes between
-- a stream that the device sends and a log of what it was sent. The SD card driver calls Dif, GPT
-- boot calls a read function, which the boot code fills with a driver's: a `Reader` of Gpt/Find is
-- what it relies on, and Flash/Read makes one of the flash driver. Flash/Link is what that driver
-- relies on. The registers of the serial device, the timer and the DMA engine are hardware;
-- Uart/Line, Clint/Frequency and Dma/Copy have what the code relies on of them. The I2C driver of
-- OpenTitan is a record of calls of I2c, and I2c/Eeprom has what the code relies on of it and of the
-- EEPROM behind it.
--
-- The programs of Programs are run on a `Bench`: the board of the boot code, a DMA engine, and the
-- addresses of the locals. The uncached mapping of the scratchpad is a range of its own.
--
-- The loader of the simulation is C++ on the host. Its functions go from the values of its globals to
-- new ones, with what is printed as a log (Elf/Loader); the testbench's loop over the sections is in
-- Elf/Sections. A failed assertion is `none`, and so is an `int` that overflows. What lies behind the
-- bytes of a file is an argument.
--
-- Numbers are native and unbounded; casts and wrap-around of 64 bits are written out (Word).
-- Pointers are numbers; an address inside of a buffer that the caller passes does not wrap. Values
-- that C leaves undefined are arguments: the record Undefined of Sdcard.
--
-- Bounds: polling loops count down the rounds of the code. A block of 512 bytes has 513 rounds for
-- its chunks, each of which moves at least one byte. The loop of the card's initialisation has no
-- bound in the code: its rounds are an argument, and the same goes for the polls of the flash chip,
-- the serial line, the EEPROM, the timer and the DMA engine, and for the loop of the debug server.
-- They are enough where the device is ready within them. The loops over blocks and over partitions
-- are as long as their number.
--
-- Not modelled: what the boot code prints, its trap handlers, assembly and inline assembly,
-- generated register headers and accessors, and the hardware description. PROJECT.json names the parts that are left out.
mod Prelude
pub mod Word
pub mod Crc
pub mod Machine
pub mod Spi
pub mod Sdcard
pub mod Gpt
pub mod Flash
pub mod Uart
pub mod Clint
pub mod I2c
pub mod Boot
pub mod Dma
pub mod Elf
pub mod Programs
