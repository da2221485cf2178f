-- ===== src/Sdcard/Read/Chunks.antt =====
-- The loop that reads a block in chunks of the receive FIFO's size.
use mathlib.Core.List.{append_assoc}
use cheshire_can.Prelude.{
  ℕ, zero, suc, ◌+◌, ◌-◌, ◌*◌, ◌<◌, [], ◌++◌, ◌≡◌, sym, ap, ◌∙◌, inl, inr, arith, ltb, Bool-cases,
  length, take, drop, length-take, length-drop, take-append-drop,
}
use cheshire_can.Machine.{State}
use cheshire_can.Machine.Store.{Bytes, Memory, store_bytes}
use cheshire_can.Machine.Chunks.{length_zero, chunk_split}
use cheshire_can.Machine.Yields.{Yields, yields, bind}
use cheshire_can.Spi.{Dif}
use cheshire_can.Spi.Wire.{Wire, At, At-incoming, At-stored}
use cheshire_can.Sdcard.{Card}
use cheshire_can.Sdcard.Transfer.{rx-At}
use cheshire_can.Sdcard.Read.{read_chunks}
use cheshire_can.Word.{min_c}

module _ {W : Type 0} {dif : Dif W} (card : Card) (wire : Wire dif card.csid card.csid_dummy) where
  pub read_chunks-At :
      (rounds ptr offs : ℕ) {s : State W} {rest o : Bytes} {m : Memory} (xs : Bytes)
      → 0 < dif.rx_depth
      → 512 - offs < rounds
      → length xs ≡ 512 - offs
      → At wire (xs ++ rest) o m s
      → Yields
          (At wire rest o (store_bytes (ptr + offs) xs m))
          tt
          (read_chunks dif card rounds ptr offs s)
  unfolding read_chunks store_bytes
  read_chunks-At zero ptr offs xs depth fuel e at = elim fuel [ ]
  read_chunks-At (suc rounds) ptr offs {s} {rest} {o} {m} xs depth fuel e at =
      elim (Bool-cases (ltb offs 512)) [
        | inr done ↦
            let none_left : xs ≡ [] = length_zero xs (ground arith) in
            rw (done, none_left) (yields tt s (At-incoming wire (ap (λ t. t ++ rest) none_left) at))
        | inl more ↦
            let n : ℕ = min_c (4 * dif.rx_depth) (512 - offs) in
            let start : At wire (take n xs ++ (drop n xs ++ rest)) o m s =
              At-incoming wire
                (ap (λ t. t ++ rest) (sym (take-append-drop n xs))
                  ∙ append_assoc (take n xs) (drop n xs) rest)
                at in
            let taken : length (take n xs) ≡ n = ground (arith, length-take n xs) in
            let left : length (drop n xs) ≡ 512 - (offs + 4 * dif.rx_depth) =
              ground (arith, length-drop n xs) in
            let place : store_bytes (ptr + (offs + 4 * dif.rx_depth)) (drop n xs)
                  (store_bytes (ptr + offs) (take n xs) m)
                ≡ store_bytes (ptr + offs) xs m =
              ap (λ k. store_bytes k (drop n xs) (store_bytes (ptr + offs) (take n xs) m))
                (omega arith)
              ∙ chunk_split (ptr + offs) (4 * dif.rx_depth) (512 - offs) xs m e in
            rw more (
              bind _ (rx-At card wire (take n xs) n start taken) λ s at. rw (← place) (
                read_chunks-At rounds ptr (offs + 4 * dif.rx_depth) (drop n xs) depth (ground arith)
                  left (At-stored wire (ptr + offs) (take n xs) at)))
      ]
