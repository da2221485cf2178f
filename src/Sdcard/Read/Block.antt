-- ===== src/Sdcard/Read/Block.antt =====
-- One block: what the card sends for it, and what the driver makes of it.
use mathlib.Core.Path.{subst}
use mathlib.Core.List.{append_assoc}
use cheshire_can.Prelude.{
  ℕ, ◌+◌, ◌*◌, ◌<◌, Bool, true, false, ◌&&◌, ◌||◌, not, ◌∷◌, ◌++◌, ◌≡◌, ◌≢◌, refl, ap, ◌∙◌, arith,
  ◌==◌, ◌!=◌, if◌then◌else◌, All, length,
}
use cheshire_can.Word.{u64, le_value}
use cheshire_can.Crc.{crc16}
use cheshire_can.Machine.{State}
use cheshire_can.Machine.Store.{Bytes, Memory, store_bytes, load_bytes, load_bytes-store_bytes}
use cheshire_can.Machine.Yields.{Yields, Refuses, yields, refuses, bind, bind-Refuses}
use cheshire_can.Spi.{Dif}
use cheshire_can.Spi.Wire.{Wire, At, At-incoming}
use cheshire_can.Sdcard.{Card, data_timeout}
use cheshire_can.Sdcard.Transfer.{rx-At, poll-At}
use cheshire_can.Sdcard.Read.{is_first, is_last, copied, read_block}
use cheshire_can.Sdcard.Read.Chunks.{read_chunks-At}

-- A block as the card sends it: idle bytes, the start token, 512 bytes and their checksum.
pub record IsBlock (wired content : Bytes) : Type 0 where
  pub idle : Bytes
  pub crc : Bytes
  pub idles : All (λ byte. (byte == 0xff) ≡ true) idle
  pub in_time : length idle + 1 < data_timeout
  pub full : length content ≡ 512
  pub crc_size : length crc ≡ 2
  pub whole : wired ≡ idle ++ (0xfe ∷ (content ++ crc))

-- Where a block is received: in the swap buffer if it is the first or the last of an unaligned read.
abbrev pub target_of : ℕ → ℕ → ℕ → ℕ → ℕ → ℕ → ℕ
target_of base len swap first_offs last_len b =
    if is_first b first_offs || is_last b len last_len then swap else u64 (base + 512 * b)

-- The memory behind a block: it is received where `read_block` says, and copied out from there.
abbrev pub received : ℕ → ℕ → ℕ → ℕ → ℕ → ℕ → Bytes → Memory → Memory
received base len swap first_offs last_len b content mem =
    let first_block = is_first b first_offs in
    let last_block = is_last b len last_len in
    let dst = u64 (base + 512 * b) in
    copied first_block last_block dst swap first_offs last_len
      (store_bytes (if first_block || last_block then swap else dst) content mem)

accepted : (check : Bool) (a b : ℕ) → (check ≡ true → a ≡ b) → not (check && a != b) ≡ true
accepted true a b h = let e : a ≡ b = h refl in ground arith
accepted false a b h = refl

refused : (a b : ℕ) → a ≢ b → (a != b) ≡ true
refused a b h = ground arith

module _ {W : Type 0} {dif : Dif W} (card : Card) (wire : Wire dif card.csid card.csid_dummy)
    (depth : 0 < dif.rx_depth) (base len swap first_offs last_len : ℕ) (check_crc : Bool)
    (b : ℕ) where
  abbrev buffer : ℕ
  buffer = target_of base len swap first_offs last_len b

  -- Behind the content, the driver holds the block and its checksum.
  content_loaded :
      (m : Memory) (content : Bytes)
      → length content ≡ 512
      → load_bytes buffer 512 (store_bytes buffer content m) ≡ content
  content_loaded m content e =
      subst (λ n. load_bytes buffer n (store_bytes buffer content m) ≡ content) e
        (load_bytes-store_bytes buffer content m)

  pub read_block-At :
      {s : State W} {more o : Bytes} {m : Memory} {wired content : Bytes}
      (sound : IsBlock wired content)
      → (check_crc ≡ true → le_value sound.crc ≡ crc16 content)
      → At wire (wired ++ more) o m s
      → Yields
          (At wire more o (received base len swap first_offs last_len b content m))
          tt
          (read_block dif card base len swap first_offs last_len check_crc b s)
  unfolding read_block
  read_block-At {s} {more} {o} {m} {content = content} sound good at =
      let start : At wire (sound.idle ++ 0xfe ∷ (content ++ (sound.crc ++ more))) o m s =
        At-incoming wire (ap (λ t. t ++ more) sound.whole ∙ simp append_assoc) at in
      bind _
        (poll-At card wire (λ byte. byte == 0xff) 0x19 data_timeout sound.idle 0xfe sound.idles refl
          sound.in_time start)
        λ s at.
          bind _ (read_chunks-At card wire 513 buffer 0 content depth (omega arith) (sound.full) at)
            λ s at. bind _ (rx-At card wire sound.crc 2 at sound.crc_size) λ s at.
              let here : s.mem ≡ store_bytes buffer content m =
                at.memory ∙ ap (λ p. store_bytes p content m) (omega arith) in
              let loaded : load_bytes buffer 512 s.mem ≡ content =
                ap (load_bytes buffer 512) here ∙ content_loaded m content sound.full in
              rw (loaded, accepted check_crc (le_value sound.crc) (crc16 content) good)
                (yields tt _ (record {
                  coming = at.coming;
                  gone = at.gone;
                  memory =
                      ap
                        (copied (is_first b first_offs) (is_last b len last_len)
                          (u64 (base + 512 * b)) swap first_offs last_len)
                        here;
                }))

  -- A checksum that does not fit is an error: the card's answer is taken, and the memory is as before but
  -- for the block where it was received, so nothing is copied out of the swap buffer.
  pub read_block-bad_crc :
      {s : State W} (more : Bytes) {o : Bytes} {m : Memory} {wired content : Bytes}
      (sound : IsBlock wired content)
      → check_crc ≡ true
      → le_value sound.crc ≢ crc16 content
      → At wire (wired ++ more) o m s
      → Refuses
          (At wire more o (store_bytes (target_of base len swap first_offs last_len b) content m))
          0x21
          (read_block dif card base len swap first_offs last_len check_crc b s)
  unfolding read_block
  read_block-bad_crc {s} more {o} {m} {content = content} sound on bad at =
      let start : At wire (sound.idle ++ 0xfe ∷ (content ++ (sound.crc ++ more))) o m s =
        At-incoming wire (ap (λ t. t ++ more) sound.whole ∙ simp append_assoc) at in
      bind-Refuses _
        (poll-At card wire (λ byte. byte == 0xff) 0x19 data_timeout sound.idle 0xfe sound.idles refl
          sound.in_time start)
        λ s at.
          bind-Refuses _
            (read_chunks-At card wire 513 buffer 0 content depth (omega arith) (sound.full) at)
            λ s at. bind-Refuses _ (rx-At card wire sound.crc 2 at sound.crc_size) λ s at.
              let here : s.mem ≡ store_bytes buffer content m =
                at.memory ∙ ap (λ p. store_bytes p content m) (omega arith) in
              let loaded : load_bytes buffer 512 s.mem ≡ content =
                ap (load_bytes buffer 512) here ∙ content_loaded m content sound.full in
              rw (loaded, on, refused (le_value sound.crc) (crc16 content) bad)
                (refuses 0x21 s (record { coming = at.coming; gone = at.gone; memory = here }))
