-- ===== src/Sdcard/Tests/Writes.antt =====
-- A write of two blocks with checksums, and a block that the card refuses.
use cheshire_can.Prelude.{ℕ, ◌%◌, ◌==◌, true, false, [], ◌∷◌, ◌++◌, ◌≡◌, refl, arith, bit_and}
use cheshire_can.Machine.Store.{Bytes, Memory}
use cheshire_can.Machine.Yields.{Yields, Fails}
use cheshire_can.Spi.Wire.{At}
use cheshire_can.Sdcard.{r1, r1b}
use cheshire_can.Sdcard.Command.{IsResponse, busy, command_bytes}
use cheshire_can.Sdcard.Write.{write_block, write_blocks}
use cheshire_can.Sdcard.Write.Sound.{
  IsAccepted, none_left, another, Takes, many, write_cmd, token, packets, stop_bytes,
  write_blocks-sends, write_block-refused,
}
use cheshire_can.Sdcard.Tests.Sim.{sim, card, wire, before, before-At}
use cheshire_can.Sdcard.Tests.Reads.{zero-IsResponse}

abbrev image : Memory
image p = p % 256

-- Ready after one byte of waiting.
idle-IsResponse :
    (c : ℕ) → bit_and c 0xff == 0x4c ≡ false → IsResponse c r1b (0xff ∷ 0 ∷ 0 ∷ 0xff ∷ []) 0 []
unfolding cheshire_can.Sdcard.r1b_timeout
idle-IsResponse c e = record {
  stuff = [];
  skipped = 0xff ∷ [];
  tail = 0 ∷ 0xff ∷ [];
  stuffed = rw e refl;
  waits = (refl, tt);
  in_time = omega arith;
  answers = refl;
  ends = busy (0 ∷ []) 0xff refl (refl, tt) refl (omega arith) refl refl;
  whole = refl;
}

abbrev accepting : Bytes
accepting = 0xe5 ∷ 0xff ∷ 0 ∷ 0 ∷ 0xff ∷ []

accepting-IsAccepted : IsAccepted accepting
accepting-IsAccepted = record {
  response = 0xe5;
  busy = 0xff ∷ 0 ∷ 0 ∷ 0xff ∷ [];
  first = 0;
  accepted = refl;
  settles = idle-IsResponse 0 refl;
  whole = refl;
}

abbrev answer : Bytes
answer = (0 ∷ []) ++ ((accepting ++ (accepting ++ [])) ++ (0xff ∷ 0 ∷ 0 ∷ 0xff ∷ []))

answer-Takes : Takes 2 7 answer
unfolding cheshire_can.Sdcard.build_cmd cheshire_can.Crc.crc7 cheshire_can.Crc.crc7_round
    cheshire_can.Crc.crc7_lookup
answer-Takes = record {
  reply = 0 ∷ [];
  answers = accepting ++ (accepting ++ []);
  closing = 0xff ∷ 0 ∷ 0 ∷ 0xff ∷ [];
  first = 0;
  answered = zero-IsResponse (write_cmd 2 7) refl;
  accepts = another accepting-IsAccepted (another accepting-IsAccepted (none_left refl) refl) refl;
  stopped = many refl (idle-IsResponse 0xfd refl);
  whole = refl;
}

write_blocks-sends_example :
    Yields
      (At wire []
        ((([] ++ command_bytes (write_cmd 2 7)) ++ packets 0x2000 (token 2) true image 2 0)
          ++ stop_bytes 2)
        image)
      tt
      (write_blocks sim card 0x2000 7 2 true (before answer image))
write_blocks-sends_example =
    write_blocks-sends card wire 0x2000 7 2 true (omega arith) (omega arith) answer-Takes
      (before-At answer image)

write_block-refused_example :
    Fails 0x22 (write_block sim card 0x2000 0xfe true 0 (before (0xeb ∷ []) image))
write_block-refused_example =
    write_block-refused card wire (omega arith) 0x2000 0xfe true 0 0xeb refl
      (before-At (0xeb ∷ []) image)
