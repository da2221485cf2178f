-- ===== src/Sdcard/Command.antt =====
-- Commands and their responses: `__spi_sdcard_cmd` over a wire.
use mathlib.Core.List.{append_assoc, append-nil}
use cheshire_can.Prelude.{
  ℕ, zero, suc, ◌+◌, ◌-◌, ◌≤◌, ◌<◌, Bool, true, false, not, none, some, [], ◌∷◌, ◌++◌, ◌≡◌, ap, ◌∙◌,
  inl, inr, bit_and, arith, ◌==◌, ◌!=◌, if◌then◌else◌, Bool-cases, suc-ne-zero, All, length, take,
}
use cheshire_can.Word.{le_bytes}
use cheshire_can.Machine.{State, pure, ◌>>◌, when}
use cheshire_can.Machine.Store.{Bytes, Memory}
use cheshire_can.Machine.Yields.{Yields, yields, bind}
use cheshire_can.Spi.{Dif}
use cheshire_can.Spi.Wire.{Wire, At, At-incoming}
use cheshire_can.Sdcard.{
  Card, Resp, resp_len, is_r1b, r1b_timeout, xfer_csaat, csfree, rest_of_response, cmd,
}
use cheshire_can.Sdcard.Transfer.{rx-At, tx-At, csfree-At, poll-At}

-- The bytes of a command on the wire: none, the stop token alone, or six.
abbrev pub command_bytes : ℕ → Bytes
command_bytes c = if c != 0 then take (if c == 0xfd then 1 else 6) (le_bytes 8 c) else []

-- A byte with its highest bit set is no response yet.
abbrev pub is_waiting : ℕ → Bool
is_waiting byte = bit_and byte 0x80 != 0

-- What may stand on the wire behind the first byte of a response, and what of it is stored: the other
-- bytes of a longer response, or zeros until a card that is busy is ready.
pub data IsTail (resp : Resp) (wired stored : Bytes) : Type 0 where
  plain :
      is_r1b resp ≡ false
      → length wired + 1 ≡ resp_len resp
      → stored ≡ wired
      → IsTail resp wired stored
  busy :
      (zeros : Bytes) (ready : ℕ)
      → is_r1b resp ≡ true
      → All (λ y. (y == 0) ≡ true) zeros
      → (ready == 0) ≡ false
      → length zeros + 1 < r1b_timeout
      → wired ≡ zeros ++ ready ∷ []
      → stored ≡ []
      → IsTail resp wired stored

-- What may stand on the wire for a whole response: a byte to discard behind CMD12, up to six bytes of
-- waiting, the first byte and its tail.
pub record IsResponse (c : ℕ) (resp : Resp) (wired : Bytes) (first : ℕ) (stored : Bytes)
    : Type 0 where
  pub stuff : Bytes
  pub skipped : Bytes
  pub tail : Bytes
  pub stuffed : length stuff ≡ (if bit_and c 0xff == 0x4c then 1 else 0)
  pub waits : All (λ y. is_waiting y ≡ true) skipped
  pub in_time : length skipped ≤ 6
  pub answers : is_waiting first ≡ false
  pub ends : IsTail resp tail stored
  pub whole : wired ≡ stuff ++ (skipped ++ (first ∷ tail))

module _ {W : Type 0} {dif : Dif W} (card : Card) (wire : Wire dif card.csid card.csid_dummy) where
  plain-At :
      {s : State W} {more o : Bytes} {m : Memory} (n : ℕ) (wired : Bytes)
      → length wired ≡ n
      → At wire (wired ++ more) o m s
      → Yields
          (At wire more o m)
          wired
          ((if n != 0 then xfer_csaat dif card true none n else pure []) s)
  plain-At {s} zero [] e at = yields [] s at
  plain-At zero (x ∷ wired) e at = absurd (omega arith)
  plain-At (suc n) wired e at = rw (suc-ne-zero n) (rx-At card wire wired (suc n) at e)

  rest-At :
      {s : State W} {more o : Bytes} {m : Memory} (resp : Resp) {wired stored : Bytes}
      → IsTail resp wired stored
      → At wire (wired ++ more) o m s
      → Yields (At wire more o m) stored (rest_of_response dif card resp s)
  unfolding rest_of_response
  rest-At resp {wired} (plain p e eq) at =
      rw (p, eq) (plain-At (resp_len resp - 1) wired (omega arith) at)
  rest-At {s} {more} {o} {m} resp (busy zeros ready p hz hr ht eq none_stored) at =
      let start : At wire (zeros ++ ready ∷ more) o m s =
        rw (← append_assoc zeros (ready ∷ []) more, ← eq) at in
      rw (p, none_stored)
        (bind _ (poll-At card wire (λ byte. byte == 0) 0x13 r1b_timeout zeros ready hz hr ht start)
          (λ s h. yields [] s h))

  pub send-At :
      {s : State W} {i o : Bytes} {m : Memory} (c : ℕ)
      → At wire i o m s
      → Yields (At wire i (o ++ command_bytes c) m) tt (
          when
            (c != 0)
            (xfer_csaat dif card false (some (le_bytes 8 c)) (if c == 0xfd then 1 else 6)
              >> pure tt)
            s)
  send-At {s} {o = o} c at = elim (Bool-cases (c != 0)) [
    | inl e ↦ rw e (
        bind _ (tx-At card wire (le_bytes 8 c) (if c == 0xfd then 1 else 6) at)
          (λ s h. yields tt s h))
    | inr e ↦ rw e (yields tt s (rw (append-nil o) at))
  ]

  pub discard-At :
      {s : State W} {more o : Bytes} {m : Memory} (stop : Bool) (stuff : Bytes)
      → length stuff ≡ (if stop then 1 else 0)
      → At wire (stuff ++ more) o m s
      → Yields (At wire more o m) tt (when stop (xfer_csaat dif card true none 1 >> pure tt) s)
  discard-At true stuff e at = bind _ (rx-At card wire stuff 1 at e) (λ s h. yields tt s h)
  discard-At {s} false [] e at = yields tt s at
  discard-At false (x ∷ stuff) e at = absurd (omega arith)

  release-At :
      {s : State W} {i o : Bytes} {m : Memory} (csaat : Bool)
      → At wire i o m s
      → Yields (At wire i o m) tt (when (not csaat) (csfree dif card) s)
  release-At {s} true at = yields tt s at
  release-At false at = csfree-At card wire at

  -- A command goes out as six bytes, the stop token as one and a poll as none. With a response on the
  -- wire, it yields the first byte of the response and what belongs behind it, and takes no more.
  pub cmd-At :
      {s : State W} {o more : Bytes} {m : Memory} (c : ℕ) (resp : Resp) (csaat : Bool)
      {wired stored : Bytes} {first : ℕ}
      → IsResponse c resp wired first stored
      → At wire (wired ++ more) o m s
      → Yields
          (At wire more (o ++ command_bytes c) m)
          (first ∷ stored)
          (cmd dif card c resp csaat s)
  unfolding cmd
  cmd-At {s} {o} {more} {m} c resp csaat {first = first} response at =
      let r = response in
      let start : At wire (r.stuff ++ (r.skipped ++ first ∷ (r.tail ++ more))) o m s =
        At-incoming wire (ap (λ t. t ++ more) r.whole ∙ simp append_assoc) at in
      bind _ (send-At c start) λ s at.
        bind _ (discard-At (bit_and c 0xff == 0x4c) r.stuff r.stuffed at) λ s at.
          bind _
            (poll-At card wire is_waiting 0x12 8 r.skipped first r.waits r.answers (omega arith) at)
            λ s at.
              bind _ (rest-At resp r.ends at)
                λ s at. bind _ (release-At csaat at) λ s at. yields _ s at
