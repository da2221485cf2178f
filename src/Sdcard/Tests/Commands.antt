-- ===== src/Sdcard/Tests/Commands.antt =====
-- Commands, checked responses, and the wake-up of a card that is ready at the second question.
use cheshire_can.Prelude.{
  ◌+◌, ◌%◌, ◌/◌, ◌*◌, ◌^◌, ◌==◌, ◌||◌, true, false, some, [], ◌∷◌, ◌++◌, ◌≡◌, refl, arith, inl,
}
use cheshire_can.Crc.{crc7}
use cheshire_can.Machine.Store.{Bytes, Memory}
use cheshire_can.Machine.Yields.{Yields, Fails, Refuses}
use cheshire_can.Spi.Wire.{At}
use cheshire_can.Sdcard.{r1, r3, r7, build_cmd, cmd, cmd_check, init}
use cheshire_can.Sdcard.Command.{IsResponse, plain, command_bytes, cmd-At}
use cheshire_can.Sdcard.Frame.{body, command_bytes-build_cmd}
use cheshire_can.Sdcard.Check.{cmd_check-r1, cmd-timeout}
use cheshire_can.Sdcard.Activate.{AreAsked, ready, not_yet, WakesUp, activation_bytes}
use cheshire_can.Sdcard.Init.{init-activates}
use cheshire_can.Sdcard.Tests.Sim.{sim, card, undef, wire, controller, before, before-At}
use cheshire_can.Sdcard.Tests.Reads.{zero-IsResponse}

abbrev empty : Memory
empty p = 0

-- The read of block 1 on the wire, byte by byte.
command_bytes-build_cmd_example :
    command_bytes (build_cmd 0x51 1)
    ≡ 0x51 % 256
      ∷ 1 / 2 ^ 24 % 256
      ∷ 1 / 2 ^ 16 % 256
      ∷ 1 / 2 ^ 8 % 256
      ∷ 1 % 256
      ∷ (2 * crc7 (body 0x51 1) + 1) % 256
      ∷ []
command_bytes-build_cmd_example = command_bytes-build_cmd 0x51 1

-- The check pattern, after two bytes of waiting.
abbrev echo : Bytes
echo = 0xff ∷ 0xff ∷ 0x01 ∷ 0x00 ∷ 0x00 ∷ 0x01 ∷ 0xaa ∷ []

echo-IsResponse : IsResponse 0x87aa01000048 r7 echo 0x01 (0x00 ∷ 0x00 ∷ 0x01 ∷ 0xaa ∷ [])
echo-IsResponse = record {
  stuff = [];
  skipped = 0xff ∷ 0xff ∷ [];
  tail = 0x00 ∷ 0x00 ∷ 0x01 ∷ 0xaa ∷ [];
  stuffed = refl;
  waits = (refl, (refl, tt));
  in_time = omega arith;
  answers = refl;
  ends = plain refl refl refl;
  whole = refl;
}

cmd-At_example :
    Yields
      (At wire [] ([] ++ command_bytes 0x87aa01000048) empty)
      (0x01 ∷ 0x00 ∷ 0x00 ∷ 0x01 ∷ 0xaa ∷ [])
      (cmd sim card 0x87aa01000048 r7 false (before echo empty))
cmd-At_example = cmd-At card wire 0x87aa01000048 r7 false echo-IsResponse (before-At echo empty)

idle-IsResponse : IsResponse 0x950000000040 r1 (1 ∷ []) 1 []
idle-IsResponse = record {
  stuff = [];
  skipped = [];
  tail = [];
  stuffed = refl;
  waits = tt;
  in_time = omega arith;
  answers = refl;
  ends = plain refl refl refl;
  whole = refl;
}

cmd_check-r1_example :
    ((1 == 1 % 256) || (1 == 0) ≡ true
      → Yields
          (At wire [] ([] ++ command_bytes 0x950000000040) empty)
          tt
          (cmd_check sim undef card 0x950000000040 r1 true 1 (before (1 ∷ []) empty)))
    × ((1 == 1 % 256) || (1 == 0) ≡ false
        → Refuses
            (At wire [] ([] ++ command_bytes 0x950000000040) empty)
            1
            (cmd_check sim undef card 0x950000000040 r1 true 1 (before (1 ∷ []) empty)))
cmd_check-r1_example =
    cmd_check-r1 undef card wire 0x950000000040 1 (omega arith) idle-IsResponse
      (before-At (1 ∷ []) empty)

abbrev late : Bytes
late = 0xff ∷ 0xff ∷ 0xff ∷ 0xff ∷ 0xff ∷ 0xff ∷ 0xff ∷ 0x01 ∷ []

cmd-timeout_example : Fails 0x12 (cmd sim card 0x950000000040 r1 true (before late empty))
cmd-timeout_example =
    cmd-timeout card wire 0x950000000040 r1 true
      (0xff ∷ 0xff ∷ 0xff ∷ 0xff ∷ 0xff ∷ 0xff ∷ 0xff ∷ []) 0x01 [] refl
      (refl, (refl, (refl, (refl, (refl, (refl, (refl, tt))))))) refl (before-At late empty)

op_cond-IsResponse : IsResponse 0x770000004069 r1 (1 ∷ []) 1 []
op_cond-IsResponse = record {
  stuff = [];
  skipped = [];
  tail = [];
  stuffed = refl;
  waits = tt;
  in_time = omega arith;
  answers = refl;
  ends = plain refl refl refl;
  whole = refl;
}

ocr-IsResponse :
    IsResponse 0xfd000000007a r3
      (0x00 ∷ 0xc0 ∷ 0xff ∷ 0x80 ∷ 0x00 ∷ [])
      0x00
      (0xc0 ∷ 0xff ∷ 0x80 ∷ 0x00 ∷ [])
ocr-IsResponse = record {
  stuff = [];
  skipped = [];
  tail = 0xc0 ∷ 0xff ∷ 0x80 ∷ 0x00 ∷ [];
  stuffed = refl;
  waits = tt;
  in_time = omega arith;
  answers = refl;
  ends = plain refl refl refl;
  whole = refl;
}

abbrev asked : Bytes
asked = (0 ∷ []) ++ ((1 ∷ []) ++ ((0 ∷ []) ++ (0 ∷ [])))

asked-AreAsked : AreAsked 2 asked
asked-AreAsked =
    not_yet 1 (zero-IsResponse 0x650000000077 refl) refl op_cond-IsResponse
      (ready (zero-IsResponse 0x650000000077 refl) (zero-IsResponse 0x770000004069 refl) refl) refl

abbrev waking : Bytes
waking = (1 ∷ []) ++ (echo ++ (asked ++ ((0x00 ∷ 0xc0 ∷ 0xff ∷ 0x80 ∷ 0x00 ∷ []) ++ (0 ∷ []))))

waking-WakesUp : WakesUp 2 waking
waking-WakesUp = record {
  idle = 1 ∷ [];
  echo = echo;
  asked = asked;
  ocr = 0x00 ∷ 0xc0 ∷ 0xff ∷ 0x80 ∷ 0x00 ∷ [];
  blocks = 0 ∷ [];
  ocr_first = 0x00;
  ocr_rest = 0xc0 ∷ 0xff ∷ 0x80 ∷ 0x00 ∷ [];
  is_idle = idle-IsResponse;
  echoes = echo-IsResponse;
  gets_ready = asked-AreAsked;
  has_ocr = ocr-IsResponse;
  takes_length = zero-IsResponse 0x150002000050 refl;
  whole = refl;
}

init-activates_example :
    Yields
      (At wire [] ([] ++ activation_bytes 2) empty)
      tt
      (init sim undef 5 (some card) 50000000 (before waking empty))
init-activates_example =
    init-activates undef card wire 5 50000000 (inl refl) controller
      (record {
        selects = omega arith;
        selects_dummy = omega arith;
        runs = omega arith;
        slow_enough = omega arith;
        derived = omega arith;
      })
      (omega arith) waking-WakesUp (before-At waking empty)
