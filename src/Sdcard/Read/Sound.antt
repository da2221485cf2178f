-- ===== src/Sdcard/Read/Sound.antt =====
-- Reads of any alignment deliver the card's bytes and touch nothing else.
use mathlib.Core.Path.{subst}
use mathlib.Core.List.{append_assoc, append-nil}
use cheshire_can.Prelude.{
  ℕ, ◌+◌, ◌-◌, ◌*◌, ◌/◌, ◌%◌, ◌^◌, ◌≤◌, ◌<◌, Bool, true, false, List, [], ◌++◌, ◌≡◌, ◌⊎◌, sym, ap,
  ◌∙◌, arith, ◌==◌, ltb, if◌then◌else◌, length, get_or,
}
use cheshire_can.Word.{u64, sub64}
use cheshire_can.Machine.{State}
use cheshire_can.Machine.Store.{Bytes, Memory}
use cheshire_can.Machine.Yields.{Yields, yields, bind}
use cheshire_can.Spi.{Dif}
use cheshire_can.Spi.Wire.{Wire, At, At-incoming, At-sent}
use cheshire_can.Sdcard.{Card, Undefined, r1, r1b, build_cmd, cmd_check, csfree}
use cheshire_can.Sdcard.Transfer.{csfree-At}
use cheshire_can.Sdcard.Command.{IsResponse, command_bytes, cmd-At}
use cheshire_can.Sdcard.Read.{read_loop, read_blocks, read}
use cheshire_can.Sdcard.Read.Loop.{
  AreBlocks, AreFull, AreBlocks-AreFull, all_received, read_loop-At, all_received-inside,
  all_received-outside,
}
use cheshire_can.Sdcard.Read.Placement.{IsLayout, lower, upper}

abbrev stop : ℕ
stop = 0x61000000004c

-- Several blocks end with the stop command and its response.
pub data IsClosing (n : ℕ) (wired : Bytes) : Type 0 where
  single : ltb 1 n ≡ false → wired ≡ [] → IsClosing n wired
  many : {first : ℕ} → ltb 1 n ≡ true → IsResponse stop r1b wired first [] → IsClosing n wired

abbrev pub closing_bytes : ℕ → Bytes
closing_bytes n = if ltb 1 n then command_bytes stop else []

-- The command for `n` blocks from `block` on.
abbrev pub read_cmd : ℕ → ℕ → ℕ
read_cmd n block = build_cmd (if ltb 1 n then 0x52 else 0x51) block

-- What a card that serves a read sends: a response, the blocks, and the response to the stop.
pub record Serves (check_crc : Bool) (n block : ℕ) (wired : Bytes) (contents : List Bytes)
    : Type 0 where
  pub reply : Bytes
  pub blocks : Bytes
  pub closing : Bytes
  pub first : ℕ
  pub answered : IsResponse (read_cmd n block) r1 reply first []
  pub sends : AreBlocks check_crc blocks contents
  pub count : length contents ≡ n
  pub closes : IsClosing n closing
  pub whole : wired ≡ reply ++ (blocks ++ closing)

module _ {W : Type 0} {dif : Dif W} (undef : Undefined) (card : Card)
    (wire : Wire dif card.csid card.csid_dummy) where
  closing-At :
      {s : State W} {more o : Bytes} {m : Memory} (n : ℕ) {wired : Bytes}
      → IsClosing n wired
      → At wire (wired ++ more) o m s
      → Yields
          (At wire more (o ++ closing_bytes n) m)
          tt
          ((if ltb 1 n then cmd_check dif undef card stop r1b false 0 else csfree dif card) s)
  unfolding cmd_check
  closing-At {more = more} {o} n (single p e) at = rw p (
      csfree-At card wire
        (At-sent wire (sym (append-nil o)) (At-incoming wire (ap (λ t. t ++ more) e) at)))
  closing-At n (many p r) at =
      rw p (bind _ (cmd-At card wire stop r1b false r at) (λ s at. yields tt s at))

  -- The loop for a number of blocks that is known.
  read_n-At :
      (buf n swap first_offs last_len : ℕ) (check_crc : Bool) {s : State W} {more o : Bytes}
      {m : Memory} {wired : Bytes} {contents : List Bytes}
      → 0 < dif.rx_depth
      → AreBlocks check_crc wired contents
      → length contents ≡ n
      → At wire (wired ++ more) o m s
      → Yields
          (At wire more o
            (all_received (sub64 buf first_offs) n swap first_offs last_len 0 contents m))
          tt
          (read_loop dif card (sub64 buf first_offs) n swap first_offs last_len check_crc n 0 s)
  read_n-At buf n swap first_offs last_len check_crc {s} {more} {o} {m} {contents = contents} depth
        sends count at =
      subst
        (λ k.
          Yields
            (At wire more o
              (all_received (sub64 buf first_offs) n swap first_offs last_len 0 contents m))
            tt
            (read_loop dif card (sub64 buf first_offs) n swap first_offs last_len check_crc k 0 s))
        count
        (read_loop-At card wire depth (sub64 buf first_offs) n swap first_offs last_len check_crc 0
          sends at)

  pub read_blocks-At :
      (buf n block swap first_offs last_len : ℕ) (check_crc : Bool) {s : State W} {more o : Bytes}
      {m : Memory} {wired : Bytes} {contents : List Bytes}
      → 0 < dif.rx_depth
      → 0 < n
      → Serves check_crc n block wired contents
      → At wire (wired ++ more) o m s
      → Yields
          (At wire more
            ((o ++ command_bytes (read_cmd n block)) ++ closing_bytes n)
            (all_received (sub64 buf first_offs) n swap first_offs last_len 0 contents m))
          tt
          (read_blocks dif undef card buf block n swap first_offs last_len check_crc s)
  unfolding read_blocks
  read_blocks-At buf n block swap first_offs last_len check_crc {s} {more} {o} {m}
        {contents = contents} depth pos sv at =
      let start : At wire (sv.reply ++ (sv.blocks ++ (sv.closing ++ more))) o m s =
        At-incoming wire (ap (λ t. t ++ more) sv.whole ∙ simp append_assoc) at in
      let nonzero : (n == 0) ≡ false = ground arith in
      rw nonzero (
        bind _ (cmd-At card wire (read_cmd n block) r1 true sv.answered start) λ s at.
          bind _ (read_n-At buf n swap first_offs last_len check_crc depth sv.sends sv.count at)
            λ s at. closing-At n sv.closes at)

-- The blocks that a read of `len` bytes from `addr` takes, as the driver counts them.
abbrev pub block_count : ℕ → ℕ → ℕ
block_count addr len = (len + addr % 512 + 511) / 512

-- `contents` are the card's blocks from `block` on.
abbrev pub Holds : (ℕ → ℕ) → ℕ → List Bytes → Type 0
Holds disk block contents =
    (k j : ℕ)
    → k < length contents
    → j < 512
    → get_or (get_or contents k []) j 0 ≡ disk (512 * (block + k) + j)

-- Where a read may put its bytes: addresses do not wrap, and the swap buffer is somewhere else.
pub record IsPlace (swap buf addr len : ℕ) : Type 0 where
  pub some_bytes : 0 < len
  pub card_range : addr + len + 1023 ≤ 2 ^ 64
  pub aligned_down : addr % 512 ≤ buf
  pub memory_range : buf + len + 512 ≤ 2 ^ 64
  pub apart : (swap + 512 ≤ buf) ⊎ (buf + len ≤ swap)

-- The memory behind a read: the card's bytes where they were asked for, and nothing else changed but
-- the swap buffer.
pub record IsRead (disk : ℕ → ℕ) (swap buf addr len : ℕ) (before after : Memory) : Type 0 where
  pub delivered : (i : ℕ) → i < len → after (buf + i) ≡ disk (addr + i)
  pub untouched :
      (q : ℕ) → (q < buf) ⊎ (buf + len ≤ q) → (q < swap) ⊎ (swap + 512 ≤ q) → after q ≡ before q

module _ {swap buf addr len : ℕ} (place : IsPlace swap buf addr len) where
  abbrev n : ℕ
  n = block_count addr len

  abbrev last_len : ℕ
  last_len = if u64 (addr + len) % 512 == 0 then 512 else u64 (addr + len) % 512

  abbrev offs : ℕ
  offs = addr % 512

  base_lem : sub64 buf offs ≡ buf - offs
  base_lem = let a = place.aligned_down in let b = place.memory_range in omega arith

  span : 512 * (n - 1) + last_len ≡ offs + len
  span = let a = place.some_bytes in let b = place.card_range in ground arith

  last_bounds : (0 < last_len) × (last_len ≤ 512)
  last_bounds = ground arith

  count_pos : 0 < n
  count_pos = let a = place.some_bytes in omega arith

  layout_lem : IsLayout (buf - offs) n offs last_len
  layout_lem = record {
    some_blocks = count_pos;
    offs_fits = omega arith;
    last_pos = last_bounds.0;
    last_fits = last_bounds.1;
    one_block = λ one. let a = place.some_bytes in omega (arith, span);
    in_range =
        let a = place.aligned_down in
        let b = place.memory_range in omega (arith, span, last_bounds, count_pos);
  }

  module _ (disk : ℕ → ℕ) (contents : List Bytes) (before : Memory)
      (holds : Holds disk (addr / 512) contents) (full : AreFull contents)
      (count : length contents ≡ n) where
    abbrev after : Memory
    after = all_received (buf - offs) n swap offs last_len 0 contents before

    delivered_lem : (i : ℕ) → i < len → after (buf + i) ≡ disk (addr + i)
    delivered_lem i h =
        let k : ℕ = (offs + i) / 512 in
        let j : ℕ = (offs + i) % 512 in
        let here : buf + i ≡ buf - offs + 512 * k + j = let a = place.aligned_down in omega arith in
        let there : 512 * (addr / 512 + k) + j ≡ addr + i = omega arith in
        let low : lower offs k ≤ j = ground arith in
        let high : j < upper n last_len k = ground (arith, span, last_bounds) in
        let inside : k < length contents = omega (arith, span, last_bounds) in
        rw here (
          all_received-inside layout_lem swap 0 contents before k k j full (omega arith) inside
            (omega arith) low high (let a = place.apart in omega arith)
          ∙ holds k j inside (omega arith)
          ∙ ap disk there)

    untouched_lem :
        (q : ℕ) → (q < buf) ⊎ (buf + len ≤ q) → (q < swap) ⊎ (swap + 512 ≤ q) → after q ≡ before q
    untouched_lem q out away =
        all_received-outside layout_lem swap 0 contents before q full (omega arith)
          (let a = place.aligned_down in ground (arith, span, count_pos)) away

    pub after-IsRead : IsRead disk swap buf addr len before after
    after-IsRead = record { delivered = delivered_lem; untouched = untouched_lem }

module _ {W : Type 0} {dif : Dif W} (undef : Undefined) (card : Card)
    (wire : Wire dif card.csid card.csid_dummy) where
  -- A read of any alignment, with or without checksums, from a card that serves it: it returns zero,
  -- has sent the read command and, for several blocks, the stop command, has taken the whole answer,
  -- and has put the card's bytes, and only these, where they were asked for.
  pub read-IsRead :
      (swap buf addr len : ℕ) (check_crc : Bool) (disk : ℕ → ℕ) {s : State W} {more o : Bytes}
      {m : Memory} {wired : Bytes} {contents : List Bytes}
      → 0 < dif.rx_depth
      → IsPlace swap buf addr len
      → Serves check_crc (block_count addr len) (addr / 512) wired contents
      → Holds disk (addr / 512) contents
      → At wire (wired ++ more) o m s
      → (after : Memory) × Yields
          (At wire more
            ((o ++ command_bytes (read_cmd (block_count addr len) (addr / 512)))
              ++ closing_bytes (block_count addr len))
            after)
          tt
          (read dif undef card swap buf addr len check_crc s)
        × IsRead disk swap buf addr len m after
  unfolding read
  read-IsRead swap buf addr len check_crc disk {m = m} {contents = contents} depth place sv holds
        at =
      let some_len : (len == 0) ≡ false = let a = place.some_bytes in ground arith in
      let blocks : u64 (len + addr % 512 + 511) / 512 ≡ block_count addr len =
        let a = place.card_range in omega arith in
      let full : AreFull contents = AreBlocks-AreFull sv.sends in
      (
        after place disk contents m holds full sv.count,
        rw (some_len, blocks, ← base_lem place)
            (read_blocks-At undef card wire buf (block_count addr len) (addr / 512) swap
              (addr % 512) (last_len place) check_crc depth (count_pos place) sv at),
        after-IsRead place disk contents m holds full sv.count,
      )
