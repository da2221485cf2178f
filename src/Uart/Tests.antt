-- ===== src/Uart/Tests.antt =====
-- A debug session on a simulated line that is busy for one look after every byte.
use cheshire_can.Prelude.{
  ℕ, ◌-◌, ◌%◌, ◌<◌, Bool, true, false, ◌&&◌, List, [], ◌∷◌, ◌++◌, ◌≡◌, refl, arith, bit_and, ◌==◌,
  ◌!=◌, if◌then◌else◌,
}
use cheshire_can.Word.{le_bytes}
use cheshire_can.Machine.{State, Cmd, pure}
use cheshire_can.Machine.Store.{Bytes, Memory}
use cheshire_can.Machine.Yields.{Yields}
use cheshire_can.Uart.{Bus}
use cheshire_can.Uart.Line.{Line, is_some_left}
use cheshire_can.Uart.Session.{Request, fetch, deposit, encode_all}

record Terminal : Type 0 where
  incoming : Bytes
  sent : Bytes
  waiting : Bool

abbrev status : Bool → Bytes → ℕ
status true bytes = 0
status false [] = 0x20
status false (x ∷ bytes) = 0x21

abbrev first : Bytes → ℕ
first [] = 0
first (x ∷ bytes) = x

abbrev others : Bytes → Bytes
others [] = []
others (x ∷ bytes) = bytes

abbrev read_register : ℕ → Terminal → ℕ × Terminal
read_register offs w =
    if offs == 20
    then (status w.waiting w.incoming, record w { waiting = false })
    else (first w.incoming, record w { incoming = others w.incoming; waiting = true })

abbrev sim : Bus Terminal
sim = record {
  read8 = read_register;
  write8 = λ offs value w. record w { sent = w.sent ++ value ∷ []; waiting = true };
}

abbrev looks : Bool → ℕ
looks true = 1
looks false = 0

ready_flag :
    (waiting : Bool) (bytes : Bytes)
    → (bit_and (status waiting bytes) 1 != 0) ≡ ((looks waiting == 0) && is_some_left bytes)
ready_flag true bytes = refl
ready_flag false [] = refl
ready_flag false (x ∷ bytes) = refl

room_flag :
    (waiting : Bool) (bytes : Bytes)
    → (bit_and (status waiting bytes) 32 != 0) ≡ (looks waiting == 0)
room_flag true bytes = refl
room_flag false [] = refl
room_flag false (x ∷ bytes) = refl

looks_below : (waiting : Bool) → looks waiting < 2
looks_below true = omega arith
looks_below false = omega arith

looks_less : (waiting : Bool) → 0 ≡ looks waiting - 1
looks_less true = refl
looks_less false = refl

abbrev line : Line sim 2
line = record {
  incoming = λ w. w.incoming;
  sent = λ w. w.sent;
  busy = λ w. looks w.waiting;
  always = λ w. looks_below w.waiting;
  status_runs = λ w. (
    status w.waiting w.incoming,
    record w { waiting = false },
    refl,
    ready_flag w.waiting w.incoming,
    room_flag w.waiting w.incoming,
    refl,
    refl,
    looks_less w.waiting,
  );
  receive_runs = λ w x rest e.
      (record w { incoming = others w.incoming; waiting = true }, rw e refl, rw e refl, refl);
  send_runs = λ w x. (refl, refl);
}

abbrev image : Memory
image p = p % 256

abbrev requests : List Request
requests = deposit 0x1000 (1 ∷ 2 ∷ 3 ∷ []) ∷ fetch 0xffe 6 ∷ []

abbrev initial : Bytes → State Terminal
initial bytes = record {
  world = record { incoming = bytes; sent = []; waiting = true };
  mem = image;
}

abbrev session : Bytes
session = encode_all requests ++ (0x13 ∷ (le_bytes 8 0x1000 ++ []))

abbrev returns_seven : ℕ → Cmd Terminal ℕ
returns_seven addr = pure 7
