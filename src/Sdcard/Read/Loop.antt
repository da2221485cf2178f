-- ===== src/Sdcard/Read/Loop.antt =====
-- The loop over blocks: what it takes from the wire and what memory it leaves.
use mathlib.Core.List.{append_assoc}
use cheshire_can.Prelude.{
  ℕ, zero, suc, ◌+◌, ◌-◌, ◌*◌, ◌≤◌, ◌<◌, Bool, true, List, [], ◌∷◌, ◌++◌, ◌≡◌, ◌⊎◌, refl, ap, ◌∙◌,
  arith, length, get_or,
}
use cheshire_can.Word.{le_value}
use cheshire_can.Crc.{crc16}
use cheshire_can.Machine.{State}
use cheshire_can.Machine.Store.{Bytes, Memory}
use cheshire_can.Machine.Yields.{Yields, yields, bind}
use cheshire_can.Spi.{Dif}
use cheshire_can.Spi.Wire.{Wire, At, At-incoming}
use cheshire_can.Sdcard.{Card}
use cheshire_can.Sdcard.Read.{read_loop}
use cheshire_can.Sdcard.Read.Block.{IsBlock, received, read_block-At}
use cheshire_can.Sdcard.Read.Placement.{IsLayout, lower, upper, received-inside, received-outside}

-- The blocks that the card sends, with fitting checksums where they are looked at.
pub data AreBlocks (check_crc : Bool) : Bytes → List Bytes → Type 0 where
  none_left : {wired : Bytes} → wired ≡ [] → AreBlocks check_crc wired []
  another :
      {wired first rest content : Bytes} {contents : List Bytes} (block : IsBlock first content)
      → (check_crc ≡ true → le_value block.crc ≡ crc16 content)
      → AreBlocks check_crc rest contents
      → wired ≡ first ++ rest
      → AreBlocks check_crc wired (content ∷ contents)

-- The memory behind the blocks from `b` on.
abbrev pub all_received : ℕ → ℕ → ℕ → ℕ → ℕ → ℕ → List Bytes → Memory → Memory
all_received base n swap first_offs last_len b [] mem = mem
all_received base n swap first_offs last_len b (content ∷ contents) mem =
    all_received base n swap first_offs last_len (b + 1) contents
      (received base n swap first_offs last_len b content mem)

abbrev pub AreFull : List Bytes → Type 0
AreFull [] = Unit
AreFull (content ∷ contents) = (length content ≡ 512) × AreFull contents

pub AreBlocks-AreFull :
    {check_crc : Bool} {wired : Bytes} {contents : List Bytes}
    → AreBlocks check_crc wired contents
    → AreFull contents
AreBlocks-AreFull (none_left e) = tt
AreBlocks-AreFull (another block good blocks e) = (block.full, AreBlocks-AreFull blocks)

module _ {W : Type 0} {dif : Dif W} (card : Card) (wire : Wire dif card.csid card.csid_dummy)
    (depth : 0 < dif.rx_depth) (base n swap first_offs last_len : ℕ) (check_crc : Bool) where
  pub read_loop-At :
      {wired : Bytes} {contents : List Bytes} (b : ℕ) {s : State W} {more o : Bytes} {m : Memory}
      → AreBlocks check_crc wired contents
      → At wire (wired ++ more) o m s
      → Yields
          (At wire more o (all_received base n swap first_offs last_len b contents m))
          tt
          (read_loop dif card base n swap first_offs last_len check_crc (length contents) b s)
  unfolding read_loop
  read_loop-At b {s} {more} (none_left e) at =
      yields tt s (At-incoming wire (ap (λ t. t ++ more) e) at)
  read_loop-At b {s} {more} (another {first = first} {rest} block good blocks e) at =
      bind _
        (read_block-At card wire depth base n swap first_offs last_len check_crc b block good
          (At-incoming wire (ap (λ t. t ++ more) e ∙ append_assoc first rest more) at))
        (λ s at. read_loop-At (b + 1) blocks at)

module _ {base n first_offs last_len : ℕ} (layout : IsLayout base n first_offs last_len)
    (swap : ℕ) where
  -- Everything but the wanted bytes and the swap buffer is as before.
  pub all_received-outside :
      (b : ℕ) (contents : List Bytes) (mem : Memory) (q : ℕ)
      → AreFull contents
      → b + length contents ≡ n
      → (q < base + 512 * b + lower first_offs b) ⊎ (base + 512 * (n - 1) + last_len ≤ q)
      → (q < swap) ⊎ (swap + 512 ≤ q)
      → all_received base n swap first_offs last_len b contents mem q ≡ mem q
  all_received-outside b [] mem q full e out away = refl
  all_received-outside b (content ∷ contents) mem q full e out away =
      all_received-outside (b + 1) contents (received base n swap first_offs last_len b content mem)
        q full.1 (omega arith) (ground arith) away
      ∙ received-outside layout swap b (omega arith) content mem q full.0 (ground arith) away

  -- A wanted byte of a block is the card's. Block `i` is the `k`-th of those from `b` on.
  pub all_received-inside :
      (b : ℕ) (contents : List Bytes) (mem : Memory) (k i j : ℕ)
      → AreFull contents
      → b + length contents ≡ n
      → k < length contents
      → b + k ≡ i
      → lower first_offs i ≤ j
      → j < upper n last_len i
      → (base + 512 * i + j < swap) ⊎ (swap + 512 ≤ base + 512 * i + j)
      → all_received base n swap first_offs last_len b contents mem (base + 512 * i + j)
        ≡ get_or (get_or contents k []) j 0
  all_received-inside b [] mem k i j full e hk hi low high away = elim hk [ ]
  all_received-inside b (content ∷ contents) mem zero i j full e hk hi low high away =
      let same : i ≡ b = omega arith in
      rw same (
        all_received-outside (b + 1) contents
          (received base n swap first_offs last_len b content mem) (base + 512 * b + j) full.1
          (omega arith) (ground arith) (ground arith)
        ∙ received-inside layout swap b (omega arith) content mem j full.0 (ground arith)
            (ground arith))
  all_received-inside b (content ∷ contents) mem (suc k) i j full e hk hi low high away =
      all_received-inside (b + 1) contents (received base n swap first_offs last_len b content mem)
        k i j full.1 (omega arith) (omega arith) (omega arith) low high away
