-- ===== src/Sdcard/Tests/Reads.antt =====
-- A read of 600 bytes from byte 520 of a card, over two blocks, with checksums.
use cheshire_can.Prelude.{
  ℕ, zero, suc, ◌+◌, ◌%◌, true, false, List, [], ◌∷◌, ◌++◌, ◌≡◌, ◌≢◌, refl, inl, arith, bit_and,
  ◌==◌,
}
use cheshire_can.Word.{IsBytes, le_value, le_bytes}
use cheshire_can.Crc.{crc16}
use cheshire_can.Crc.Equivalence.{crc16-reference}
use cheshire_can.Machine.Store.{
  Bytes, Memory, load_bytes, store_bytes, length-load_bytes, get_or-load_bytes,
}
use cheshire_can.Machine.Yields.{Yields, Refuses}
use cheshire_can.Spi.Wire.{At}
use cheshire_can.Sdcard.Command.{IsResponse, plain, busy, command_bytes}
use cheshire_can.Sdcard.{r1, r1b}
use cheshire_can.Sdcard.Read.{read, read_block}
use cheshire_can.Sdcard.Read.Block.{IsBlock, target_of, read_block-bad_crc}
use cheshire_can.Sdcard.Read.Loop.{AreBlocks, none_left, another}
use cheshire_can.Sdcard.Read.Sound.{
  Serves, many, Holds, IsPlace, IsRead, read_cmd, closing_bytes, block_count, read-IsRead,
}
use cheshire_can.Sdcard.Tests.Sim.{sim, card, undef, wire, before, before-At}

abbrev disk : ℕ → ℕ
disk p = p % 256

abbrev empty : Memory
empty p = 0

IsBytes-load : (p n : ℕ) → IsBytes (load_bytes p n disk)
unfolding load_bytes
IsBytes-load p zero = tt
IsBytes-load p (suc n) = (omega arith, IsBytes-load (p + 1) n)

crc_bytes : (bytes : Bytes) → IsBytes bytes → le_value (le_bytes 2 (crc16 bytes)) ≡ crc16 bytes
crc_bytes bytes h = let small = (crc16-reference bytes h).1 in omega arith

abbrev content : ℕ → Bytes
content p = load_bytes p 512 disk

abbrev block : ℕ → Bytes
block p = 0xff ∷ (0xfe ∷ (content p ++ le_bytes 2 (crc16 (content p))))

block-IsBlock : (p : ℕ) → IsBlock (block p) (content p)
unfolding cheshire_can.Sdcard.data_timeout
block-IsBlock p = record {
  idle = 0xff ∷ [];
  crc = le_bytes 2 (crc16 (content p));
  idles = (refl, tt);
  in_time = omega arith;
  full = length-load_bytes p 512 disk;
  crc_size = refl;
  whole = refl;
}

abbrev contents : List Bytes
contents = content 512 ∷ content 1024 ∷ []

abbrev blocks : Bytes
blocks = block 512 ++ (block 1024 ++ [])

blocks-AreBlocks : AreBlocks true blocks contents
unfolding block-IsBlock
blocks-AreBlocks =
    another (block-IsBlock 512) (λ e. crc_bytes (content 512) (IsBytes-load 512 512))
      (another (block-IsBlock 1024) (λ e. crc_bytes (content 1024) (IsBytes-load 1024 512))
        (none_left refl) refl)
      refl

-- A response of one zero byte.
pub zero-IsResponse :
    (c : ℕ) → (if_stop : bit_and c 0xff == 0x4c ≡ false) → IsResponse c r1 (0 ∷ []) 0 []
zero-IsResponse c e = record {
  stuff = [];
  skipped = [];
  tail = [];
  stuffed = rw e refl;
  waits = tt;
  in_time = omega arith;
  answers = refl;
  ends = plain refl refl refl;
  whole = refl;
}

stop-IsResponse : IsResponse 0x61000000004c r1b (0x7f ∷ 0 ∷ 0 ∷ 0xff ∷ []) 0 []
unfolding cheshire_can.Sdcard.r1b_timeout
stop-IsResponse = record {
  stuff = 0x7f ∷ [];
  skipped = [];
  tail = 0 ∷ 0xff ∷ [];
  stuffed = refl;
  waits = tt;
  in_time = omega arith;
  answers = refl;
  ends = busy (0 ∷ []) 0xff refl (refl, tt) refl (omega arith) refl refl;
  whole = refl;
}

abbrev answer : Bytes
answer = (0 ∷ []) ++ (blocks ++ (0x7f ∷ 0 ∷ 0 ∷ 0xff ∷ []))

answer-Serves : Serves true (block_count 520 600) 1 answer contents
unfolding cheshire_can.Sdcard.build_cmd cheshire_can.Crc.crc7 cheshire_can.Crc.crc7_round
    cheshire_can.Crc.crc7_lookup
answer-Serves = record {
  reply = 0 ∷ [];
  blocks = blocks;
  closing = 0x7f ∷ 0 ∷ 0 ∷ 0xff ∷ [];
  first = 0;
  answered = zero-IsResponse (read_cmd 2 1) refl;
  sends = blocks-AreBlocks;
  count = refl;
  closes = many refl stop-IsResponse;
  whole = refl;
}

contents-Holds : Holds disk 1 contents
contents-Holds zero j k_fits j_fits = get_or-load_bytes 512 512 disk j j_fits
contents-Holds (suc zero) j k_fits j_fits = get_or-load_bytes 1024 512 disk j j_fits
contents-Holds (suc (suc k)) j k_fits j_fits = absurd (omega arith)

target-IsPlace : IsPlace 0x1000 0x4000 520 600
target-IsPlace = record {
  some_bytes = omega arith;
  card_range = omega arith;
  aligned_down = omega arith;
  memory_range = omega arith;
  apart = inl (omega arith);
}

read-IsRead_example :
    (after : Memory) × Yields
      (At wire []
        (([] ++ command_bytes (read_cmd (block_count 520 600) 1))
          ++ closing_bytes (block_count 520 600))
        after)
      tt
      (read sim undef card 0x1000 0x4000 520 600 true (before answer empty))
    × IsRead disk 0x1000 0x4000 520 600 empty after
read-IsRead_example =
    read-IsRead undef card wire 0x1000 0x4000 520 600 true disk (omega arith) target-IsPlace
      answer-Serves contents-Holds (before-At answer empty)

-- The same block with a checksum that does not fit.
abbrev zeros : Memory
zeros p = 0

abbrev spoiled : Bytes
spoiled = 0xfe ∷ (load_bytes 0 512 zeros ++ 0x12 ∷ 0x34 ∷ [])

spoiled-IsBlock : IsBlock spoiled (load_bytes 0 512 zeros)
unfolding cheshire_can.Sdcard.data_timeout
spoiled-IsBlock = record {
  idle = [];
  crc = 0x12 ∷ 0x34 ∷ [];
  idles = tt;
  in_time = omega arith;
  full = length-load_bytes 0 512 zeros;
  crc_size = refl;
  whole = refl;
}

spoiled_crc : le_value (0x12 ∷ 0x34 ∷ []) ≢ crc16 (load_bytes 0 512 zeros)
unfolding cheshire_can.Crc.crc16 cheshire_can.Crc.crc16_round cheshire_can.Crc.crc16_lookup
    cheshire_can.Machine.Store.load_bytes
spoiled_crc h = omega arith

read_block-bad_crc_example :
    Refuses
      (At wire [] []
        (store_bytes (target_of 0x4000 1 0x1000 0 512 0) (load_bytes 0 512 zeros) empty))
      0x21
      (read_block sim card 0x4000 1 0x1000 0 512 true 0 (before spoiled empty))
unfolding spoiled-IsBlock
read_block-bad_crc_example =
    read_block-bad_crc card wire (omega arith) 0x4000 1 0x1000 0 512 true 0 [] spoiled-IsBlock refl
      spoiled_crc (before-At spoiled empty)
