-- ===== src/Sdcard/Write/Sound.antt =====
-- Writes send every block of the buffer, framed, and read nothing but the card's answers.
use mathlib.Core.Path.{ap₂}
use mathlib.Core.List.{append_assoc, append-nil}
use cheshire_can.Prelude.{
  ℕ, zero, suc, ◌+◌, ◌-◌, ◌*◌, ◌<◌, Bool, true, false, [], ◌∷◌, ◌++◌, ◌≡◌, sym, ap, ◌∙◌, inl, inr,
  bit_and, arith, ◌==◌, ltb, if◌then◌else◌, Bool-cases, take, take_all,
}
use cheshire_can.Word.{u64, min_c, le_bytes}
use cheshire_can.Crc.{crc16}
use cheshire_can.Machine.{State, pure, ◌>>◌}
use cheshire_can.Machine.Store.{Bytes, Memory, load_bytes, length-load_bytes}
use cheshire_can.Machine.Chunks.{loaded_chunk}
use cheshire_can.Machine.Yields.{Yields, Fails, yields, fails, bind, bind-Fails}
use cheshire_can.Spi.{Dif}
use cheshire_can.Spi.Wire.{Wire, At, At-incoming, At-sent}
use cheshire_can.Sdcard.{Card, r1, r1b, build_cmd, cmd, csfree}
use cheshire_can.Sdcard.Transfer.{tx-At, dummy-At, byte-At, csfree-At}
use cheshire_can.Sdcard.Command.{IsResponse, command_bytes, cmd-At}
use cheshire_can.Sdcard.Write.{write_chunks, write_block, write_loop, write_blocks}

loaded : (p n : ℕ) {m m' : Memory} → m' ≡ m → take n (load_bytes p n m') ≡ load_bytes p n m
loaded p n {m' = m'} e =
    take_all n (load_bytes p n m') (length-load_bytes p n m') ∙ ap (load_bytes p n) e

module _ {W : Type 0} {dif : Dif W} (card : Card) (wire : Wire dif card.csid card.csid_dummy) where
  -- The rest of a block goes out from `offs` on.
  write_chunks-At :
      (rounds ptr offs : ℕ) {s : State W} {i o : Bytes} {m : Memory}
      → 0 < dif.rx_depth
      → 512 - offs < rounds
      → At wire i o m s
      → Yields
          (At wire i (o ++ load_bytes (ptr + offs) (512 - offs) m) m)
          tt
          (write_chunks dif card rounds ptr offs s)
  unfolding write_chunks load_bytes
  write_chunks-At zero ptr offs depth fuel at = elim fuel [ ]
  write_chunks-At (suc rounds) ptr offs {s} {i} {o} {m} depth fuel at =
      elim (Bool-cases (ltb offs 512)) [
        | inr done ↦
            let none_left : 512 - offs ≡ 0 = ground arith in
            rw (done, none_left) (yields tt s (At-sent wire (sym (append-nil o)) at))
        | inl more ↦
            let step : ℕ = 4 * dif.rx_depth in
            let n : ℕ = min_c step (512 - offs) in
            let rest : Bytes = load_bytes (ptr + (offs + step)) (512 - (offs + step)) m in
            let whole : (o ++ load_bytes (ptr + offs) n m) ++ rest
                ≡ o ++ load_bytes (ptr + offs) (512 - offs) m =
              append_assoc o (load_bytes (ptr + offs) n m) rest
              ∙ ap (λ t. o ++ t)
                  (ap₂ (λ p k. load_bytes (ptr + offs) n m ++ load_bytes p k m) (omega arith)
                      (omega arith)
                    ∙ loaded_chunk (ptr + offs) step (512 - offs) m) in
            rw (more, ← whole)
              (bind _ (tx-At card wire (load_bytes (ptr + offs) n s.mem) n at) λ s' at'.
                write_chunks-At rounds ptr (offs + step) depth (ground arith)
                  (At-sent wire (ap (λ t. o ++ t) (loaded (ptr + offs) n at.memory)) at'))
      ]

-- A block on the wire: the token, the 512 bytes and their checksum, low byte first.
abbrev pub packet : ℕ → Bool → Bytes → Bytes
packet tok compute_crc content =
    tok ∷ (content ++ le_bytes 2 (if compute_crc then crc16 content else 0))

-- The blocks of a buffer from `b` on.
abbrev pub packets : ℕ → ℕ → Bool → Memory → ℕ → ℕ → Bytes
packets buf tok compute_crc m zero b = []
packets buf tok compute_crc m (suc left) b =
    packet tok compute_crc (load_bytes (u64 (buf + 512 * b)) 512 m)
    ++ packets buf tok compute_crc m left (b + 1)

-- The card accepts a block, and is busy with it for a while.
pub record IsAccepted (wired : Bytes) : Type 0 where
  pub response : ℕ
  pub busy : Bytes
  pub first : ℕ
  pub accepted : (bit_and response 0x1f == 0x05) ≡ true
  pub settles : IsResponse 0 r1b busy first []
  pub whole : wired ≡ response ∷ busy

pub data AreAccepted : ℕ → Bytes → Type 0 where
  none_left : {wired : Bytes} → wired ≡ [] → AreAccepted zero wired
  another :
      {left : ℕ} {wired first rest : Bytes}
      → IsAccepted first
      → AreAccepted left rest
      → wired ≡ first ++ rest
      → AreAccepted (suc left) wired

regroup : (o c k : Bytes) (t : ℕ) → ((o ++ t ∷ []) ++ c) ++ k ≡ o ++ (t ∷ (c ++ k))
regroup o c k t = simp append_assoc

-- What a block has sent before the card answers.
block_sent :
    (o : Bytes) (tok p : ℕ) (compute_crc : Bool) {m m' : Memory}
    → m' ≡ m
    → ((o ++ tok ∷ []) ++ load_bytes (p + 0) 512 m)
        ++ le_bytes 2 (if compute_crc then crc16 (load_bytes p 512 m') else 0)
      ≡ o ++ packet tok compute_crc (load_bytes p 512 m)
block_sent o tok p compute_crc {m} {m'} e =
    ap₂ (λ c d. ((o ++ tok ∷ []) ++ c) ++ le_bytes 2 (if compute_crc then crc16 d else 0))
      (ap (λ q. load_bytes q 512 m) (omega arith)) (ap (load_bytes p 512) e)
    ∙ regroup o (load_bytes p 512 m) _ tok

module _ {W : Type 0} {dif : Dif W} (card : Card) (wire : Wire dif card.csid card.csid_dummy)
    (depth : 0 < dif.rx_depth) (buf tok : ℕ) (compute_crc : Bool) (b : ℕ) where
  abbrev source : ℕ
  source = u64 (buf + 512 * b)

  pub write_block-At :
      {s : State W} {more o : Bytes} {m : Memory} {wired : Bytes}
      → IsAccepted wired
      → At wire (wired ++ more) o m s
      → Yields
          (At wire more (o ++ packet tok compute_crc (load_bytes source 512 m)) m)
          tt
          (write_block dif card buf tok compute_crc b s)
  unfolding write_block
  write_block-At {more = more} {o} {m} acc at =
      bind _ (tx-At card wire (tok ∷ []) 1 (At-incoming wire (ap (λ t. t ++ more) acc.whole) at))
        λ s at. bind _ (write_chunks-At card wire 513 source 0 depth (omega arith) at) λ s at.
          bind _
            (tx-At card wire
              (le_bytes 2 (if compute_crc then crc16 (load_bytes source 512 s.mem) else 0)) 2 at)
            λ s' at'.
              bind _
                (byte-At card wire acc.response
                  (At-sent wire (block_sent o tok source compute_crc at.memory) at'))
                λ s' at'. rw acc.accepted (
                  bind _ (cmd-At card wire 0 r1b true acc.settles at')
                    λ s' at'. yields tt s' (At-sent wire (append-nil _) at'))

  -- Any other answer to a block is an error, before the card is waited for.
  pub write_block-refused :
      {s : State W} (response : ℕ) {more o : Bytes} {m : Memory}
      → (bit_and response 0x1f == 0x05) ≡ false
      → At wire (response ∷ more) o m s
      → Fails 0x22 (write_block dif card buf tok compute_crc b s)
  unfolding write_block
  write_block-refused response bad at = bind-Fails _ (tx-At card wire (tok ∷ []) 1 at) λ s at.
      bind-Fails _ (write_chunks-At card wire 513 source 0 depth (omega arith) at) λ s at.
        bind-Fails _
          (tx-At card wire
            (le_bytes 2 (if compute_crc then crc16 (load_bytes source 512 s.mem) else 0)) 2 at)
          λ s' at'. bind-Fails _ (byte-At card wire response at') λ s' at'. rw bad (fails 0x22 s')

module _ {W : Type 0} {dif : Dif W} (card : Card) (wire : Wire dif card.csid card.csid_dummy)
    (depth : 0 < dif.rx_depth) (buf tok : ℕ) (compute_crc : Bool) where
  write_loop-At :
      (left b : ℕ) {wired : Bytes} {s : State W} {more o : Bytes} {m : Memory}
      → AreAccepted left wired
      → At wire (wired ++ more) o m s
      → Yields
          (At wire more (o ++ packets buf tok compute_crc m left b) m)
          tt
          (write_loop dif card buf tok compute_crc left b s)
  unfolding write_loop
  write_loop-At zero b {s} {more} {o} (none_left e) at =
      yields tt s (At-sent wire (sym (append-nil o)) (At-incoming wire (ap (λ t. t ++ more) e) at))
  write_loop-At (suc left) b {s} {more} {o} {m} (another {first = first} {rest} acc accs e) at =
      rw
        (← append_assoc o (packet tok compute_crc (load_bytes (u64 (buf + 512 * b)) 512 m))
          (packets buf tok compute_crc m left (b + 1)))
        (bind _
          (write_block-At card wire depth buf tok compute_crc b acc
            (At-incoming wire (ap (λ t. t ++ more) e ∙ append_assoc first rest more) at))
          (λ s at. write_loop-At left (b + 1) accs at))

-- The command to write `n` blocks from `block` on, and the token in front of every block.
abbrev pub write_cmd : ℕ → ℕ → ℕ
write_cmd n block = build_cmd (if ltb 1 n then 0x59 else 0x58) block

abbrev pub token : ℕ → ℕ
token n = if ltb 1 n then 0xfc else 0xfe

-- Several blocks end with a token of their own, for which the card may be busy.
pub data IsStopped (n : ℕ) (wired : Bytes) : Type 0 where
  single : ltb 1 n ≡ false → wired ≡ [] → IsStopped n wired
  many : {first : ℕ} → ltb 1 n ≡ true → IsResponse 0xfd r1b wired first [] → IsStopped n wired

abbrev pub stop_bytes : ℕ → Bytes
stop_bytes n = if ltb 1 n then command_bytes 0xfd else []

-- What a card that takes `n` blocks from `block` on sends.
pub record Takes (n block : ℕ) (wired : Bytes) : Type 0 where
  pub reply : Bytes
  pub answers : Bytes
  pub closing : Bytes
  pub first : ℕ
  pub answered : IsResponse (write_cmd n block) r1 reply first []
  pub accepts : AreAccepted n answers
  pub stopped : IsStopped n closing
  pub whole : wired ≡ reply ++ (answers ++ closing)

module _ {W : Type 0} {dif : Dif W} (card : Card) (wire : Wire dif card.csid card.csid_dummy) where
  stopped-At :
      {s : State W} {more o : Bytes} {m : Memory} (n : ℕ) {wired : Bytes}
      → IsStopped n wired
      → At wire (wired ++ more) o m s
      → Yields
          (At wire more (o ++ stop_bytes n) m)
          tt
          ((if ltb 1 n then cmd dif card 0xfd r1b false >> pure tt else csfree dif card) s)
  stopped-At {more = more} {o} n (single p e) at = rw p (
      csfree-At card wire
        (At-sent wire (sym (append-nil o)) (At-incoming wire (ap (λ t. t ++ more) e) at)))
  stopped-At n (many p r) at =
      rw p (bind _ (cmd-At card wire 0xfd r1b false r at) (λ s at. yields tt s at))

  -- A write of one or several blocks to a card that takes them: it returns zero, has sent the write
  -- command, then every block of the buffer in order, each behind its token and with its checksum, and
  -- for several blocks the stop token, has taken the card's whole answer, and leaves the memory alone.
  pub write_blocks-sends :
      (buf block n : ℕ) (compute_crc : Bool) {s : State W} {more o : Bytes} {m : Memory}
      {wired : Bytes}
      → 0 < dif.rx_depth
      → 0 < n
      → Takes n block wired
      → At wire (wired ++ more) o m s
      → Yields
          (At wire more
            (((o ++ command_bytes (write_cmd n block)) ++ packets buf (token n) compute_crc m n 0)
              ++ stop_bytes n)
            m)
          tt
          (write_blocks dif card buf block n compute_crc s)
  unfolding write_blocks
  write_blocks-sends buf block n compute_crc {s} {more} {o} {m} depth pos takes at =
      let start : At wire (takes.reply ++ (takes.answers ++ (takes.closing ++ more))) o m s =
        At-incoming wire (ap (λ t. t ++ more) takes.whole ∙ simp append_assoc) at in
      let nonzero : (n == 0) ≡ false = ground arith in
      rw nonzero (
        bind _ (cmd-At card wire (write_cmd n block) r1 true takes.answered start) λ s at.
          bind _ (dummy-At card wire 1 at) λ s at.
            bind _ (write_loop-At card wire depth buf (token n) compute_crc n 0 takes.accepts at)
              λ s at. stopped-At n takes.stopped at)
