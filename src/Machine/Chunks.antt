-- ===== src/Machine/Chunks.antt =====
-- Buffers that are filled in chunks: the first chunk and what is behind it are the whole.
use mathlib.Core.Path.{subst}
use mathlib.Core.List.{append-nil}
use cheshire_can.Prelude.{
  ℕ, zero, suc, ◌+◌, ◌-◌, [], ◌∷◌, ◌++◌, ◌≡◌, refl, sym, ap, ◌∙◌, inl, inr, arith, leb, Bool-cases,
  length, take, drop, length-take, length-drop, take-append-drop,
}
use cheshire_can.Word.{min_c}
use cheshire_can.Machine.Store.{
  Bytes, Memory, store_bytes, store_bytes-append, load_bytes, load_bytes-add, length-load_bytes,
  load_bytes-store_bytes,
}

pub length_zero : (xs : Bytes) → length xs ≡ 0 → xs ≡ []
length_zero [] e = refl
length_zero (x ∷ xs) e = absurd (omega arith)

-- The first chunk and what is behind it, as writes.
pub chunk_split :
    (p step left : ℕ) (xs : Bytes) (m : Memory)
    → length xs ≡ left
    → store_bytes
        (p + step)
        (drop (min_c step left) xs)
        (store_bytes p (take (min_c step left) xs) m)
      ≡ store_bytes p xs m
unfolding store_bytes
chunk_split p step left xs m e = elim (Bool-cases (leb step left)) [
  | inl le ↦
      let n : length (take step xs) ≡ step = ground (arith, length-take step xs) in
      rw le (
        ap (λ k. store_bytes (p + k) (drop step xs) (store_bytes p (take step xs) m)) (sym n)
        ∙ sym (store_bytes-append p (take step xs) (drop step xs) m)
        ∙ ap (λ t. store_bytes p t m) (take-append-drop step xs))
  | inr gt ↦
      let rest : drop left xs ≡ [] =
        length_zero (drop left xs) (ground (arith, length-drop left xs)) in
      rw (gt, rest)
        (ap (λ t. store_bytes p t m)
          (sym (append-nil (take left xs))
            ∙ ap (λ t. take left xs ++ t) (sym rest)
            ∙ take-append-drop left xs))
]

pub loaded_chunk :
    (p step left : ℕ) (m : Memory)
    → load_bytes p (min_c step left) m ++ load_bytes (p + step) (left - step) m
      ≡ load_bytes p left m
unfolding load_bytes
loaded_chunk p step left m = elim (Bool-cases (leb step left)) [
  | inl le ↦
      let whole : step + (left - step) ≡ left = ground arith in
      rw le (sym (load_bytes-add p step (left - step) m) ∙ ap (λ n. load_bytes p n m) whole)
  | inr gt ↦
      let none_left : left - step ≡ 0 = ground arith in
      rw (gt, none_left) (append-nil (load_bytes p left m))
]

-- A chunk that is read from one memory into another, and what is behind it.
pub copied_chunk :
    (p a step left : ℕ) (f m : Memory)
    → store_bytes
        (p + step)
        (load_bytes (a + step) (left - step) f)
        (store_bytes p (load_bytes a (min_c step left) f) m)
      ≡ store_bytes p (load_bytes a left f) m
unfolding load_bytes store_bytes
copied_chunk p a step left f m = elim (Bool-cases (leb step left)) [
  | inl le ↦ rw le (
      ap
        (λ k.
          store_bytes (p + k) (load_bytes (a + step) (left - step) f)
            (store_bytes p (load_bytes a step f) m))
        (sym (length-load_bytes a step f))
      ∙ sym (store_bytes-append p (load_bytes a step f) (load_bytes (a + step) (left - step) f) m)
      ∙ ap (λ t. store_bytes p t m) (sym (load_bytes-add a step (left - step) f))
      ∙ ap (λ n. store_bytes p (load_bytes a n f) m) {x = step + (left - step)} {y = left}
          (ground arith))
  | inr gt ↦ let none_left : left - step ≡ 0 = ground arith in rw (gt, none_left) refl
]

-- A memory that agrees at two places reads the same there.
pub load_bytes-agrees :
    (p q n : ℕ) (f : Memory)
    → ((i : ℕ) → f (p + i) ≡ f (q + i))
    → load_bytes p n f ≡ load_bytes q n f
unfolding load_bytes
load_bytes-agrees p q zero f same = refl
load_bytes-agrees p q (suc n) f same =
    let head : f p ≡ f q = ap f (omega arith) ∙ same 0 ∙ ap f (omega arith) in
    rw head (
      ap (λ t. f q ∷ t)
        (load_bytes-agrees (p + 1) (q + 1) n f
          (λ i. ap f (omega arith) ∙ same (1 + i) ∙ ap f (omega arith))))

-- What was read into a place is there.
pub loaded_back :
    (p a n : ℕ) (f m : Memory)
    → load_bytes p n (store_bytes p (load_bytes a n f) m) ≡ load_bytes a n f
loaded_back p a n f m =
    subst (λ k. load_bytes p k (store_bytes p (load_bytes a n f) m) ≡ load_bytes a n f)
      (length-load_bytes a n f) (load_bytes-store_bytes p (load_bytes a n f) m)
