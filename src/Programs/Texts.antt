-- ===== src/Programs/Texts.antt =====
-- The texts that the programs sw/tests/dma_*.spm.c copy, as they lie in memory.
use mathlib.Core.Path.{ap₂}
use cheshire_can.Prelude.{
  ℕ, ◌+◌, ◌-◌, ◌≤◌, ◌≡◌, ◌⊎◌, refl, ap, ◌∙◌, inr, arith, [], ◌∷◌, ◌++◌, length, take, drop,
  take-append, drop-append,
}
use cheshire_can.Machine.Store.{
  Memory, Bytes, load_bytes, store_bytes, copy_bytes, length-load_bytes, load_bytes-add,
  load_bytes-store_bytes, load_bytes-store_bytes_apart,
}
use cheshire_can.Programs.{dma_text, dma_1d_gold}

-- Two ranges of memory that have no byte in common.
abbrev pub Apart : ℕ → ℕ → ℕ → ℕ → Type 0
Apart p n q m = (p + n ≤ q) ⊎ (q + m ≤ p)

-- A part of a range that was read.
pub load_window :
    (p n k len : ℕ) (m : Memory)
    → k + len ≤ n
    → load_bytes (p + k) len m ≡ take len (drop k (load_bytes p n m))
load_window p n k len m h =
    let whole : n ≡ k + (len + (n - (k + len))) = omega arith in
    let parts : load_bytes p n m
        ≡ load_bytes p k m
          ++ (load_bytes (p + k) len m ++ load_bytes (p + k + len) (n - (k + len)) m) =
      ap (λ i. load_bytes p i m) whole
      ∙ load_bytes-add p k (len + (n - (k + len))) m
      ∙ ap (λ t. load_bytes p k m ++ t) (load_bytes-add (p + k) len (n - (k + len)) m) in
    rw
      (
        parts,
        drop-append k (load_bytes p k m)
            (load_bytes (p + k) len m ++ load_bytes (p + k + len) (n - (k + len)) m)
            (length-load_bytes p k m),
        take-append len (load_bytes (p + k) len m) (load_bytes (p + k + len) (n - (k + len)) m)
            (length-load_bytes (p + k) len m),
      )
      refl

-- A write is seen in its range, and not in another.
pub written_at :
    (p k len : ℕ) (xs : Bytes) (m : Memory)
    → k + len ≤ length xs
    → load_bytes (p + k) len (store_bytes p xs m) ≡ take len (drop k xs)
written_at p k len xs m h =
    load_window p (length xs) k len (store_bytes p xs m) h
    ∙ ap (λ t. take len (drop k t)) (load_bytes-store_bytes p xs m)

-- The end of the destination is written before the copy, the copy fills what is in front of it, and the
-- whole is what is expected.
module _ (u d g : ℕ) (m : Memory) (text : load_bytes u 19 m ≡ dma_text)
    (apart_u : Apart d 20 u 19) where
  abbrev pub ended : Memory
  ended = store_bytes (d + 19) (0 ∷ []) (store_bytes (d + 18) (0x21 ∷ []) m)

  row_text : load_bytes u 18 ended ≡ take 18 dma_text
  row_text =
      load_bytes-store_bytes_apart u 18 (d + 19) (0 ∷ []) _ (ground arith)
      ∙ load_bytes-store_bytes_apart u 18 (d + 18) (0x21 ∷ []) m (ground arith)
      ∙ ap (λ p. load_bytes p 18 m) {x = u} {y = u + 0} (omega arith)
      ∙ load_window u 19 0 18 m (omega arith)
      ∙ ap (take 18) text

  end_text : load_bytes (d + 18) 2 (store_bytes d (take 18 dma_text) ended) ≡ 0x21 ∷ 0 ∷ []
  unfolding store_bytes
  end_text =
      let next : d + 19 ≡ d + 18 + 1 = omega arith in
      load_bytes-store_bytes_apart (d + 18) 2 d (take 18 dma_text) ended (inr (omega arith))
      ∙ rw next (load_bytes-store_bytes (d + 18) (0x21 ∷ 0 ∷ []) m)

  pub copied_text : load_bytes d 20 (copy_bytes d u 18 ended) ≡ dma_1d_gold
  unfolding copy_bytes
  copied_text = rw row_text (
      load_bytes-add d 18 2 (store_bytes d (take 18 dma_text) ended)
      ∙ ap₂ ◌++◌ (load_bytes-store_bytes d (take 18 dma_text) ended) end_text)

  pub kept_gold :
      load_bytes g 20 m ≡ dma_1d_gold
      → Apart d 20 g 20
      → load_bytes g 20 (copy_bytes d u 18 ended) ≡ dma_1d_gold
  unfolding copy_bytes
  kept_gold gold apart_g = rw row_text (
      load_bytes-store_bytes_apart g 20 d (take 18 dma_text) ended (ground arith)
      ∙ load_bytes-store_bytes_apart g 20 (d + 19) (0 ∷ []) _ (ground arith)
      ∙ load_bytes-store_bytes_apart g 20 (d + 18) (0x21 ∷ []) m (ground arith)
      ∙ gold)

-- The texts are in place once they are copied to where the engine is to read them.
module _ (cached u g : ℕ) (gold : Bytes) (m : Memory) (apart_u : Apart cached 19 u 19)
    (apart_g : Apart cached 19 g (length gold)) where
  abbrev pub initialised : Memory
  initialised = store_bytes g gold (store_bytes cached dma_text m)

  cached_text : load_bytes cached 19 initialised ≡ dma_text
  cached_text =
      load_bytes-store_bytes_apart cached 19 g gold (store_bytes cached dma_text m) apart_g
      ∙ load_bytes-store_bytes cached dma_text m

  abbrev pub filled : Memory
  filled = copy_bytes u cached 19 initialised

  pub filled_text : load_bytes u 19 filled ≡ dma_text
  unfolding copy_bytes
  filled_text = rw cached_text (load_bytes-store_bytes u dma_text initialised)

  pub filled_gold : Apart u 19 g (length gold) → load_bytes g (length gold) filled ≡ gold
  unfolding copy_bytes
  filled_gold apart_ug = rw cached_text (
      load_bytes-store_bytes_apart g (length gold) u dma_text initialised (ground arith)
      ∙ load_bytes-store_bytes g gold (store_bytes cached dma_text m))
