-- ===== src/Uart/Strings.antt =====
-- Strings over the line: what is received into locals and memory, and what is sent of them.
use mathlib.Core.List.{append_assoc, append-nil}
use cheshire_can.Prelude.{ℕ, zero, suc, ◌+◌, ◌≤◌, [], ◌∷◌, ◌++◌, ◌≡◌, sym, ap, arith, length}
use cheshire_can.Word.{u8}
use cheshire_can.Machine.{State}
use cheshire_can.Machine.Store.{Bytes, Memory, load_bytes, store_bytes}
use cheshire_can.Machine.Yields.{Yields, yields, bind}
use cheshire_can.Uart.{Bus, uart_write_str, uart_read_str, receive_local, send_local}
use cheshire_can.Uart.Line.{Line, On, On-sent, uart_read_lem, uart_write_lem}

-- Bytes as they fit the line.
abbrev pub octets : Bytes → Bytes
octets [] = []
octets (x ∷ bytes) = u8 x ∷ octets bytes

module _ {W : Type 0} {bus : Bus W} {patience : ℕ} (line : Line bus patience) (rounds : ℕ)
    (enough : patience ≤ rounds) where
  pub receive_local_lem :
      (n : ℕ) (xs : Bytes) {i o : Bytes} {m : Memory} {s : State W}
      → length xs ≡ n
      → On line (xs ++ i) o m s
      → Yields (On line i o m) xs (receive_local bus rounds n s)
  unfolding receive_local
  receive_local_lem zero [] {s = s} e on = yields [] s on
  receive_local_lem zero (x ∷ xs) e on = absurd (omega arith)
  receive_local_lem (suc n) [] e on = absurd (omega arith)
  receive_local_lem (suc n) (x ∷ xs) e on =
      bind _ (uart_read_lem line rounds x enough on)
        λ s on. bind _ (receive_local_lem n xs (omega arith) on) λ s on. yields (x ∷ xs) s on

  pub uart_read_str_lem :
      (n dst : ℕ) (xs : Bytes) {i o : Bytes} {m : Memory} {s : State W}
      → length xs ≡ n
      → On line (xs ++ i) o m s
      → Yields (On line i o (store_bytes dst xs m)) tt (uart_read_str bus rounds dst n s)
  unfolding uart_read_str store_bytes
  uart_read_str_lem zero dst [] {s = s} e on = yields tt s on
  uart_read_str_lem zero dst (x ∷ xs) e on = absurd (omega arith)
  uart_read_str_lem (suc n) dst [] e on = absurd (omega arith)
  uart_read_str_lem (suc n) dst (x ∷ xs) {m = m} e on =
      bind _ (uart_read_lem line rounds x enough on) λ s on.
        uart_read_str_lem n (dst + 1) xs (omega arith) (record {
          coming = on.coming;
          gone = on.gone;
          memory = ap (store_bytes dst (x ∷ [])) on.memory;
        })

  pub uart_write_str_lem :
      (n src : ℕ) {i o : Bytes} {m : Memory} {s : State W}
      → On line i o m s
      → Yields
          (On line i (o ++ octets (load_bytes src n m)) m)
          tt
          (uart_write_str bus rounds src n s)
  unfolding uart_write_str load_bytes
  uart_write_str_lem zero src {o = o} {s = s} on =
      yields tt s (On-sent line (sym (append-nil o)) on)
  uart_write_str_lem (suc n) src {i} {o} {m} {s} on =
      let byte : s.mem src ≡ m src = ap (λ (f : Memory). f src) on.memory in
      rw (byte, ← append_assoc o (u8 (m src) ∷ []) (octets (load_bytes (src + 1) n m)))
        (bind _ (uart_write_lem line rounds (m src) enough on)
          λ s on. uart_write_str_lem n (src + 1) on)

  pub send_local_lem :
      (xs : Bytes) {i o : Bytes} {m : Memory} {s : State W}
      → On line i o m s
      → Yields (On line i (o ++ octets xs) m) tt (send_local bus rounds xs s)
  unfolding send_local
  send_local_lem [] {o = o} {s = s} on = yields tt s (On-sent line (sym (append-nil o)) on)
  send_local_lem (x ∷ xs) {o = o} on =
      rw (← append_assoc o (u8 x ∷ []) (octets xs))
        (bind _ (uart_write_lem line rounds x enough on) λ s on. send_local_lem xs on)
