-- ===== src/Sdcard/Activate.antt =====
-- The wake-up of a card: `__spi_sdcard_activate` of sw/lib/hal/spi_sdcard.c.
use mathlib.Core.List.{append_assoc}
use cheshire_can.Prelude.{
  ℕ, zero, suc, ◌+◌, ◌-◌, ◌^◌, ◌≤◌, true, false, [], ◌∷◌, ◌++◌, ◌≡◌, ◌⊎◌, refl, sym, ap, ◌∙◌, arith,
  inl, inr, bit_and, ◌!=◌,
}
use cheshire_can.Word.{u64, ◌<<<◌}
use cheshire_can.Word.Mask.{bit_and-ones}
use cheshire_can.Machine.{State}
use cheshire_can.Machine.Store.{Bytes, Memory}
use cheshire_can.Machine.Yields.{Yields, yields, bind}
use cheshire_can.Spi.{Dif}
use cheshire_can.Spi.Wire.{Wire, At, At-incoming, At-sent}
use cheshire_can.Sdcard.{
  Card, Undefined, Resp, r1, r3, r7, cmd_check, resp_mask, activate_loop, activate,
}
use cheshire_can.Sdcard.Transfer.{dummy-At}
use cheshire_can.Sdcard.Command.{IsResponse, command_bytes, cmd-At}
use cheshire_can.Sdcard.Check.{cmd_check-r1}

abbrev go_idle : ℕ
go_idle = 0x950000000040

abbrev send_if_cond : ℕ
send_if_cond = 0x87aa01000048

abbrev app_cmd : ℕ
app_cmd = 0x650000000077

abbrev send_op_cond : ℕ
send_op_cond = 0x770000004069

abbrev read_ocr : ℕ
read_ocr = 0xfd000000007a

abbrev set_blocklen : ℕ
set_blocklen = 0x150002000050

-- What a card sends while it is asked whether it is ready, `n` times: only the last answer is zero.
pub data AreAsked : ℕ → Bytes → Type 0 where
  ready :
      {wired prefixed answered : Bytes} {first : ℕ}
      → IsResponse app_cmd r1 prefixed first []
      → IsResponse send_op_cond r1 answered 0 []
      → wired ≡ prefixed ++ answered
      → AreAsked 1 wired
  not_yet :
      {n : ℕ} {wired prefixed answered rest : Bytes} {first : ℕ} (code : ℕ)
      → IsResponse app_cmd r1 prefixed first []
      → (code != 0) ≡ true
      → IsResponse send_op_cond r1 answered code []
      → AreAsked n rest
      → wired ≡ prefixed ++ (answered ++ rest)
      → AreAsked (suc n) wired

abbrev pub asking_bytes : ℕ → Bytes
asking_bytes zero = []
asking_bytes (suc n) = command_bytes app_cmd ++ (command_bytes send_op_cond ++ asking_bytes n)

-- What a card sends that wakes up: it is idle, echoes the check pattern, gets ready, and takes the
-- length of blocks.
pub record WakesUp (n : ℕ) (wired : Bytes) : Type 0 where
  pub idle : Bytes
  pub echo : Bytes
  pub asked : Bytes
  pub ocr : Bytes
  pub blocks : Bytes
  pub ocr_first : ℕ
  pub ocr_rest : Bytes
  pub is_idle : IsResponse go_idle r1 idle 1 []
  pub echoes : IsResponse send_if_cond r7 echo 0x01 (0x00 ∷ 0x00 ∷ 0x01 ∷ 0xaa ∷ [])
  pub gets_ready : AreAsked n asked
  pub has_ocr : IsResponse read_ocr r3 ocr ocr_first ocr_rest
  pub takes_length : IsResponse set_blocklen r1 blocks 0 []
  pub whole : wired ≡ idle ++ (echo ++ (asked ++ (ocr ++ blocks)))

abbrev pub activation_bytes : ℕ → Bytes
activation_bytes n =
    command_bytes go_idle
    ++ (command_bytes send_if_cond
        ++ (asking_bytes n ++ (command_bytes read_ocr ++ command_bytes set_blocklen)))

-- The mask of a response of five bytes, whose shift C leaves open: the low byte, which is what the
-- shift instruction of the target gives, or all the bytes, which is what is meant.
abbrev pub IsWideMask : Undefined → Type 0
IsWideMask undef = (undef.wide_mask 40 ≡ 2 ^ 8 - 1) ⊎ (undef.wide_mask 40 ≡ 2 ^ 40 - 1)

echo_fits :
    (undef : Undefined)
    → IsWideMask undef
    → (bit_and (u64 (0xaa01000001 + (undef.stale <<< 40))) (undef.wide_mask 40)
        != bit_and 0xaa01000001 (undef.wide_mask 40))
      ≡ false
echo_fits undef (inl e) =
    rw (e, bit_and-ones 8 (u64 (0xaa01000001 + (undef.stale <<< 40))), bit_and-ones 8 0xaa01000001)
      (ground arith)
echo_fits undef (inr e) =
    rw
      (e, bit_and-ones 40 (u64 (0xaa01000001 + (undef.stale <<< 40))), bit_and-ones 40 0xaa01000001)
      (ground arith)

nested :
    (o a b c d e : Bytes) → o ++ (a ++ (b ++ (c ++ (d ++ e)))) ≡ ((((o ++ a) ++ b) ++ c) ++ d) ++ e
nested o a b c d e = simp append_assoc

module _ {W : Type 0} {dif : Dif W} (undef : Undefined) (card : Card)
    (wire : Wire dif card.csid card.csid_dummy) where
  ignored-At :
      {s : State W} {o more : Bytes} {m : Memory} (c : ℕ) (resp : Resp) {wired stored : Bytes}
      {first : ℕ}
      → IsResponse c resp wired first stored
      → At wire (wired ++ more) o m s
      → Yields
          (At wire more (o ++ command_bytes c) m)
          tt
          (cmd_check dif undef card c resp false 0 s)
  unfolding cmd_check
  ignored-At c resp response at =
      bind _ (cmd-At card wire c resp false response at) λ s at. yields tt s at

  echo-At :
      {s : State W} {o more : Bytes} {m : Memory} {wired : Bytes}
      → IsWideMask undef
      → IsResponse send_if_cond r7 wired 0x01 (0x00 ∷ 0x00 ∷ 0x01 ∷ 0xaa ∷ [])
      → At wire (wired ++ more) o m s
      → Yields
          (At wire more (o ++ command_bytes send_if_cond) m)
          tt
          (cmd_check dif undef card send_if_cond r7 true 0xaa01000001 s)
  unfolding cmd_check resp_mask
  echo-At mask response at =
      bind _ (cmd-At card wire send_if_cond r7 false response at)
        λ s at. rw (echo_fits undef mask) (yields tt s at)

  activate_loop-At :
      (rounds : ℕ) {n : ℕ} {s : State W} {o more : Bytes} {m : Memory} {wired : Bytes}
      → n ≤ rounds
      → AreAsked n wired
      → At wire (wired ++ more) o m s
      → Yields (At wire more (o ++ asking_bytes n) m) tt (activate_loop dif undef card rounds s)
  unfolding activate_loop
  activate_loop-At zero bound (ready p a e) at = absurd (omega arith)
  activate_loop-At zero bound (not_yet code p nz a rest e) at = absurd (omega arith)
  activate_loop-At (suc rounds) {o = o} {more} bound
        (ready {prefixed = p} {answered = a} prefixed answered e) at =
      bind _
        (ignored-At app_cmd r1 prefixed
          (At-incoming wire (ap (λ t. t ++ more) e ∙ append_assoc p a more) at))
        λ s at. bind _ (cmd-At card wire send_op_cond r1 false answered at) λ s at.
          yields tt s
            (At-sent wire (append_assoc o (command_bytes app_cmd) (command_bytes send_op_cond)) at)
  activate_loop-At (suc rounds) {o = o} {more} bound
        (not_yet {n = n} {prefixed = p} {answered = a} {rest = rest} code prefixed nz answered asked
          e)
        at =
      let split : (p ++ (a ++ rest)) ++ more ≡ p ++ (a ++ (rest ++ more)) = simp append_assoc in
      let sent : o ++ asking_bytes (suc n)
          ≡ ((o ++ command_bytes app_cmd) ++ command_bytes send_op_cond) ++ asking_bytes n =
        sym (
          append_assoc (o ++ command_bytes app_cmd) (command_bytes send_op_cond) (asking_bytes n)
          ∙ append_assoc o (command_bytes app_cmd)
              (command_bytes send_op_cond ++ asking_bytes n)) in
      rw sent (
        bind _
          (ignored-At app_cmd r1 prefixed (At-incoming wire (ap (λ t. t ++ more) e ∙ split) at))
          λ s at.
            bind _ (cmd-At card wire send_op_cond r1 false answered at)
              λ s at. rw nz (activate_loop-At rounds (omega arith) asked at))

  pub activate-At :
      (rounds : ℕ) {n : ℕ} {s : State W} {o more : Bytes} {m : Memory} {wired : Bytes}
      → IsWideMask undef
      → n ≤ rounds
      → WakesUp n wired
      → At wire (wired ++ more) o m s
      → Yields (At wire more (o ++ activation_bytes n) m) tt (activate dif undef card rounds s)
  unfolding activate
  activate-At rounds {n} {o = o} {more} {m} mask bound up at =
      let split : (up.idle ++ (up.echo ++ (up.asked ++ (up.ocr ++ up.blocks)))) ++ more
          ≡ up.idle ++ (up.echo ++ (up.asked ++ (up.ocr ++ (up.blocks ++ more)))) =
        simp append_assoc in
      let sent : o ++ activation_bytes n
          ≡ ((((o ++ command_bytes go_idle) ++ command_bytes send_if_cond) ++ asking_bytes n)
              ++ command_bytes read_ocr)
            ++ command_bytes set_blocklen =
        nested o (command_bytes go_idle) (command_bytes send_if_cond) (asking_bytes n)
          (command_bytes read_ocr) (command_bytes set_blocklen) in
      rw sent (
        bind _ (dummy-At card wire 10 (At-incoming wire (ap (λ t. t ++ more) up.whole ∙ split) at))
          λ s at.
            bind _ ((cmd_check-r1 undef card wire go_idle 0x01 (omega arith) up.is_idle at).0 refl)
              λ s at. bind _ (echo-At mask up.echoes at) λ s at.
                bind _ (activate_loop-At rounds bound up.gets_ready at) λ s at.
                  bind _ (ignored-At read_ocr r3 up.has_ocr at) λ s at.
                    (cmd_check-r1 undef card wire set_blocklen 0x00 (omega arith) up.takes_length
                        at).0
                      refl)
