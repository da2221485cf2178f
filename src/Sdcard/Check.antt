-- ===== src/Sdcard/Check.antt =====
-- What a check of a response accepts: `__spi_sdcard_cmd_check` for responses of one byte, and commands
-- that get no response in time.
use cheshire_can.Prelude.{
  ℕ, ◌+◌, ◌-◌, ◌*◌, ◌%◌, ◌^◌, ◌<◌, Bool, true, false, ◌||◌, [], ◌∷◌, ◌++◌, ◌≡◌, ◌∙◌, arith, inl,
  inr, bit_and, ◌==◌, ◌!=◌, Bool-cases, All, length,
}
use cheshire_can.Word.{u64, ◌<<<◌}
use cheshire_can.Word.Mask.{bit_and-ones}
use cheshire_can.Machine.{State}
use cheshire_can.Machine.Store.{Bytes, Memory}
use cheshire_can.Machine.Yields.{
  Yields, Fails, Refuses, yields, refuses, bind, bind-Refuses, bind-Fails, Fails-bind,
}
use cheshire_can.Spi.{Dif}
use cheshire_can.Spi.Wire.{Wire, At}
use cheshire_can.Sdcard.{Card, Undefined, Resp, r1, cmd, cmd_check, resp_mask}
use cheshire_can.Sdcard.Transfer.{poll-Fails}
use cheshire_can.Sdcard.Command.{IsResponse, is_waiting, command_bytes, cmd-At, send-At}

-- The response that is compared is the byte received, whatever lies above it in the local.
masked :
    (first stale : ℕ)
    → first < 256
    → bit_and (u64 (first + 2 ^ 8 * 0 + (stale <<< 8))) (2 ^ 8 - 1) ≡ first
masked first stale h = bit_and-ones 8 (u64 (first + 2 ^ 8 * 0 + (stale <<< 8))) ∙ omega arith

-- A byte that is accepted without being expected is zero, and one that is refused is neither.
zero_code : (a b : ℕ) → (a == b) || (a == 0) ≡ true → (a != b) ≡ true → (a % 2 ^ 32 == 0) ≡ true
zero_code a b h e = ground arith

refused :
    (a b : ℕ)
    → a < 256
    → (a == b) || (a == 0) ≡ false
    → ((a != b) ≡ true) × (a % 2 ^ 32 == 0 ≡ false) × (a % 2 ^ 32 ≡ a)
refused a b small h = ground arith

module _ {W : Type 0} {dif : Dif W} (undef : Undefined) (card : Card)
    (wire : Wire dif card.csid card.csid_dummy) where
  -- A checked response of one byte is accepted if it is the expected one, and also if it is zero. The
  -- code of a refusal is the response. Either way the command was sent, its response was taken, and the
  -- memory is as before.
  pub cmd_check-r1 :
      {s : State W} {o more : Bytes} {m : Memory} (c expected : ℕ) {wired : Bytes} {first : ℕ}
      → first < 256
      → IsResponse c r1 wired first []
      → At wire (wired ++ more) o m s
      → ((first == expected % 256) || (first == 0) ≡ true
          → Yields
              (At wire more (o ++ command_bytes c) m)
              tt
              (cmd_check dif undef card c r1 true expected s))
        × ((first == expected % 256) || (first == 0) ≡ false
            → Refuses
                (At wire more (o ++ command_bytes c) m)
                first
                (cmd_check dif undef card c r1 true expected s))
  unfolding cmd_check resp_mask
  cmd_check-r1 c expected {first = first} small response at =
      let same : bit_and expected (2 ^ 8 - 1) ≡ expected % 2 ^ 8 = bit_and-ones 8 expected in
      let y = cmd-At card wire c r1 false response at in
      (
        (λ e. bind _ y λ s at.
            rw (masked first undef.stale small, same)
              (elim (Bool-cases (first != expected % 256)) [
                | inl differs ↦
                    rw (differs, zero_code first (expected % 256) e differs) (yields tt s at)
                | inr agrees ↦ rw agrees (yields tt s at)
              ])),
        (λ e. bind-Refuses _ y λ s at.
            rw (masked first undef.stale small, same)
              (let (differs, nonzero, code) = refused first (expected % 256) small e in
                rw (differs, nonzero, code) (refuses first s at))),
      )

module _ {W : Type 0} {dif : Dif W} (card : Card) (wire : Wire dif card.csid card.csid_dummy) where
  -- A command that gets eight bytes of which the first seven are no response fails, even if the eighth
  -- is one; this holds for every command but the stop of a read, which has a byte of its own.
  pub cmd-timeout :
      {s : State W} {o : Bytes} {m : Memory} (c : ℕ) (resp : Resp) (csaat : Bool) (skipped : Bytes)
      (x : ℕ) (rest : Bytes)
      → (bit_and c 0xff == 0x4c) ≡ false
      → All (λ y. is_waiting y ≡ true) skipped
      → length skipped ≡ 7
      → At wire (skipped ++ x ∷ rest) o m s
      → Fails 0x12 (cmd dif card c resp csaat s)
  unfolding cmd
  cmd-timeout c resp csaat skipped x rest no_stop waits count at =
      bind-Fails _ (send-At card wire c at) λ s at. rw no_stop (
        Fails-bind _ (poll-Fails card wire is_waiting 0x12 8 skipped x rest waits (omega arith) at))
