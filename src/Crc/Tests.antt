-- ===== src/Crc/Tests.antt =====
-- The checksums of concrete messages.
use cheshire_can.Prelude.{◌+◌, ◌*◌, ◌/◌, ◌%◌, ◌^◌, ◌<◌, [], ◌∷◌, ◌≡◌, ◌≢◌, arith}
use cheshire_can.Crc.{crc7, crc16}
use cheshire_can.Crc.Reference.{crc16_reference, crc7_reference}
use cheshire_can.Crc.Equivalence.{crc16-reference}
use cheshire_can.Crc.Seven.{skewed_division, crc7-skewed_division}

crc16-reference_example :
    (crc16 (0x31 ∷ 0x32 ∷ 0x33 ∷ [])
      ≡ crc16_reference (0x31 ∷ 0x32 ∷ 0x33 ∷ []) % 256 * 256
        + crc16_reference (0x31 ∷ 0x32 ∷ 0x33 ∷ []) / 256)
    × (crc16 (0x31 ∷ 0x32 ∷ 0x33 ∷ []) < 2 ^ 16)
crc16-reference_example =
    crc16-reference (0x31 ∷ 0x32 ∷ 0x33 ∷ []) (omega arith, (omega arith, (omega arith, tt)))

-- The first five bytes of the command that wakes a card up.
crc7-skewed_division_example :
    crc7 (0x40 ∷ 0 ∷ 0 ∷ 0 ∷ 0 ∷ []) ≡ 2 * skewed_division 0 (0x40 ∷ 0 ∷ 0 ∷ 0 ∷ 0 ∷ [])
crc7-skewed_division_example =
    crc7-skewed_division (0x40 ∷ 0 ∷ 0 ∷ 0 ∷ 0 ∷ [])
      (omega arith, (omega arith, (omega arith, (omega arith, (omega arith, tt)))))

-- It is not twice the CRC7 of the command, which the SD standard asks for.
crc7_not_standard :
    crc7 (0x48 ∷ 0 ∷ 0 ∷ 0x01 ∷ 0xaa ∷ []) ≢ 2 * crc7_reference (0x48 ∷ 0 ∷ 0 ∷ 0x01 ∷ 0xaa ∷ [])
unfolding crc7 cheshire_can.Crc.crc7_loop cheshire_can.Crc.crc7_round cheshire_can.Crc.crc7_lookup
    crc7_reference cheshire_can.Crc.Reference.division cheshire_can.Crc.Reference.shift_bits
    cheshire_can.Crc.Reference.shift_in cheshire_can.Crc.Reference.subtract
crc7_not_standard h = omega (arith, h)
