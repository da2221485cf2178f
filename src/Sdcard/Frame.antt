-- ===== src/Sdcard/Frame.antt =====
-- The commands that `__spi_sdcard_build_cmd` builds, as they go out on the wire.
use cheshire_can.Prelude.{
  ℕ, ◌+◌, ◌*◌, ◌/◌, ◌%◌, ◌^◌, ◌<◌, true, false, [], ◌∷◌, ◌≡◌, refl, ap, ◌∙◌, arith, bit_and, bit_or,
  ◌==◌, ◌!=◌, take,
}
use cheshire_can.Word.{u8, u32, u64, ◌<<<◌, ◌>>>◌, le_bytes}
use cheshire_can.Word.Mask.{bit_and-ones, bit_or_disjoint, bit_or_comm}
use cheshire_can.Crc.{crc7}
use cheshire_can.Machine.Store.{Bytes}
use cheshire_can.Sdcard.{build_cmd}
use cheshire_can.Sdcard.Command.{command_bytes}

-- The first five bytes of a command: the opcode and the argument, its highest byte first.
abbrev pub body : ℕ → ℕ → Bytes
body opcode arg =
    opcode % 256 ∷ arg / 2 ^ 24 % 256 ∷ arg / 2 ^ 16 % 256 ∷ arg / 2 ^ 8 % 256 ∷ arg % 256 ∷ []

-- The number whose low bytes are these.
abbrev packed : ℕ → ℕ → ℕ
packed opcode arg =
    opcode % 256
    + arg / 2 ^ 24 % 256 * 2 ^ 8
    + arg / 2 ^ 16 % 256 * 2 ^ 16
    + arg / 2 ^ 8 % 256 * 2 ^ 24
    + arg % 256 * 2 ^ 32

-- A field above the bits of a number.
joined : (k q r : ℕ) → r < 2 ^ k → bit_or r (q <<< k) ≡ r + q * 2 ^ k
joined k q r h = bit_or_comm r (q <<< k) ∙ bit_or_disjoint k q r h ∙ omega arith

low_byte : (x : ℕ) → bit_and x 0xff ≡ x % 256
low_byte x = bit_and-ones 8 x

fields_lem :
    (op a b c d : ℕ)
    → op < 256
    → a < 256
    → b < 256
    → c < 256
    → bit_or (bit_or (bit_or (bit_or op (a <<< 8)) (b <<< 16)) (c <<< 24)) (d <<< 32)
      ≡ op + a * 2 ^ 8 + b * 2 ^ 16 + c * 2 ^ 24 + d * 2 ^ 32
fields_lem op a b c d ho ha hb hc =
    rw
      (
        joined 8 a op (omega arith),
        joined 16 b (op + a * 2 ^ 8) (omega arith),
        joined 24 c (op + a * 2 ^ 8 + b * 2 ^ 16) (omega arith),
      )
      (joined 32 d (op + a * 2 ^ 8 + b * 2 ^ 16 + c * 2 ^ 24) (omega arith))

-- Six bytes of a number whose five low bytes are given.
le_bytes-fields :
    (o a b c d e : ℕ)
    → o < 256
    → a < 256
    → b < 256
    → c < 256
    → d < 256
    → le_bytes 6 (e * 2 ^ 40 + (o + a * 2 ^ 8 + b * 2 ^ 16 + c * 2 ^ 24 + d * 2 ^ 32))
      ≡ o ∷ a ∷ b ∷ c ∷ d ∷ e % 256 ∷ []
le_bytes-fields o a b c d e ho ha hb hc hd =
    let x : ℕ = e * 2 ^ 40 + (o + a * 2 ^ 8 + b * 2 ^ 16 + c * 2 ^ 24 + d * 2 ^ 32) in
    let q1 : x / 2 ^ 8 ≡ e * 2 ^ 32 + (a + b * 2 ^ 8 + c * 2 ^ 16 + d * 2 ^ 24) = omega arith in
    let q2 : x / 2 ^ 8 / 2 ^ 8 ≡ e * 2 ^ 24 + (b + c * 2 ^ 8 + d * 2 ^ 16) = omega arith in
    let q3 : x / 2 ^ 8 / 2 ^ 8 / 2 ^ 8 ≡ e * 2 ^ 16 + (c + d * 2 ^ 8) = omega arith in
    let q4 : x / 2 ^ 8 / 2 ^ 8 / 2 ^ 8 / 2 ^ 8 ≡ e * 2 ^ 8 + d = omega arith in
    let q5 : x / 2 ^ 8 / 2 ^ 8 / 2 ^ 8 / 2 ^ 8 / 2 ^ 8 ≡ e = omega arith in
    let r0 : x % 2 ^ 8 ≡ o = omega arith in
    let r1 : x / 2 ^ 8 % 2 ^ 8 ≡ a = omega (arith, q1) in
    let r2 : x / 2 ^ 8 / 2 ^ 8 % 2 ^ 8 ≡ b = omega (arith, q2) in
    let r3 : x / 2 ^ 8 / 2 ^ 8 / 2 ^ 8 % 2 ^ 8 ≡ c = omega (arith, q3) in
    let r4 : x / 2 ^ 8 / 2 ^ 8 / 2 ^ 8 / 2 ^ 8 % 2 ^ 8 ≡ d = omega (arith, q4) in
    let r5 : x / 2 ^ 8 / 2 ^ 8 / 2 ^ 8 / 2 ^ 8 / 2 ^ 8 % 2 ^ 8 ≡ e % 2 ^ 8 = omega (arith, q5) in cc

le_bytes-packed : (opcode arg : ℕ) → le_bytes 5 (packed opcode arg) ≡ body opcode arg
le_bytes-packed opcode arg =
    ap (λ n. take 5 (le_bytes 6 n)) {x = packed opcode arg} {y = 0 * 2 ^ 40 + packed opcode arg}
      (omega arith)
    ∙ ap (take 5) (
        le_bytes-fields (opcode % 256) (arg / 2 ^ 24 % 256) (arg / 2 ^ 16 % 256) (arg / 2 ^ 8 % 256)
          (arg % 256) 0 (omega arith) (omega arith) (omega arith) (omega arith) (omega arith))

-- The checksum with its end bit goes on top.
ended :
    (crc low : ℕ)
    → low < 2 ^ 40
    → bit_or (u64 (bit_or (crc <<< 1) 1 <<< 40)) low ≡ (2 * crc + 1) % 2 ^ 24 * 2 ^ 40 + low
ended crc low h =
    let odd : bit_or (crc <<< 1) 1 ≡ 2 * crc + 1 =
      bit_or_disjoint 1 crc 1 (omega arith) ∙ omega arith in
    let top : u64 ((2 * crc + 1) <<< 40) ≡ (2 * crc + 1) % 2 ^ 24 * 2 ^ 40 = omega arith in
    rw (odd, top) (bit_or_disjoint 40 ((2 * crc + 1) % 2 ^ 24) low h)

-- The number that a command is built as.
build_cmd_lem :
    (opcode arg : ℕ)
    → build_cmd opcode arg ≡ (2 * crc7 (body opcode arg) + 1) % 2 ^ 24 * 2 ^ 40 + packed opcode arg
unfolding build_cmd
build_cmd_lem opcode arg =
    let a : bit_and (u32 arg >>> 24) 0xff ≡ arg / 2 ^ 24 % 256 =
      low_byte (u32 arg >>> 24) ∙ omega arith in
    let b : bit_and (u32 arg >>> 16) 0xff ≡ arg / 2 ^ 16 % 256 =
      low_byte (u32 arg >>> 16) ∙ omega arith in
    let c : bit_and (u32 arg >>> 8) 0xff ≡ arg / 2 ^ 8 % 256 =
      low_byte (u32 arg >>> 8) ∙ omega arith in
    let d : bit_and (u32 arg >>> 0) 0xff ≡ arg % 256 = low_byte (u32 arg >>> 0) ∙ omega arith in
    rw (a, b, c, d)
      (rw
        (fields_lem (u8 opcode) (arg / 2 ^ 24 % 256) (arg / 2 ^ 16 % 256) (arg / 2 ^ 8 % 256)
          (arg % 256) (omega arith) (omega arith) (omega arith) (omega arith))
        (rw (le_bytes-packed opcode arg)
          (ended (crc7 (body opcode arg)) (packed opcode arg) (omega arith))))

-- A command goes out as six bytes: the opcode, the argument with its highest byte first, and the
-- checksum of these five, shifted left, with the end bit.
pub command_bytes-build_cmd :
    (opcode arg : ℕ)
    → command_bytes (build_cmd opcode arg)
      ≡ opcode % 256
        ∷ arg / 2 ^ 24 % 256
        ∷ arg / 2 ^ 16 % 256
        ∷ arg / 2 ^ 8 % 256
        ∷ arg % 256
        ∷ (2 * crc7 (body opcode arg) + 1) % 256
        ∷ []
command_bytes-build_cmd opcode arg =
    let x : ℕ = build_cmd opcode arg in
    let some_cmd : (x != 0) ≡ true = ground (arith, build_cmd_lem opcode arg) in
    let no_token : (x == 0xfd) ≡ false = ground (arith, build_cmd_lem opcode arg) in
    rw (some_cmd, no_token)
      (ap (le_bytes 6) (build_cmd_lem opcode arg)
        ∙ le_bytes-fields (opcode % 256) (arg / 2 ^ 24 % 256) (arg / 2 ^ 16 % 256)
            (arg / 2 ^ 8 % 256) (arg % 256) ((2 * crc7 (body opcode arg) + 1) % 2 ^ 24)
            (omega arith) (omega arith) (omega arith) (omega arith) (omega arith)
        ∙ (let low : (2 * crc7 (body opcode arg) + 1) % 2 ^ 24 % 256
                ≡ (2 * crc7 (body opcode arg) + 1) % 256 =
              omega arith in
            rw low refl))
