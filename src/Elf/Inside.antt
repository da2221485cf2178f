-- ===== src/Elf/Inside.antt =====
-- What target/sim/src/elfloader.cpp loads is in the file: nothing behind its end has an influence.
use mathlib.Core.Path.{ap₂}
use native.Mathlib.Nat.{mod-eq_of_lt, mul-le-mul_right}
use cheshire_can.Prelude.{
  ℕ, zero, suc, ◌+◌, ◌*◌, ◌%◌, ◌^◌, ◌≤◌, ◌<◌, ◌≡◌, ◌∷◌, refl, sym, ap, ◌∙◌, inl, inr, arith, ◌==◌,
  leb, Bool-cases,
}
use cheshire_can.Word.{u64}
use cheshire_can.Machine.Store.{Memory, load_bytes}
use cheshire_can.Elf.{Ehdr, Phdr, Layout, layout32, layout64, ehdr32, ehdr64, phdr32, phdr64}
use cheshire_can.Elf.Keeps.{Option-cases}
use cheshire_can.Elf.Loader.{Loader}
use cheshire_can.Elf.Load.{eh, ph, field_sum, preload, take_segment, load_segments}

-- Two contents of memory that are the same in a range of bytes.
abbrev pub Agrees : Memory → Memory → ℕ → ℕ → Type 0
Agrees f g at n = (q : ℕ) → at ≤ q → q < at + n → f q ≡ g q

load_bytes-Agrees :
    (f g : Memory) (at n : ℕ) → Agrees f g at n → load_bytes at n f ≡ load_bytes at n g
unfolding load_bytes
load_bytes-Agrees f g at zero same = refl
load_bytes-Agrees f g at (suc n) same =
    ap₂ ◌∷◌ (same at (omega arith) (omega arith))
      (load_bytes-Agrees f g (at + 1) n λ q from to. same q (omega arith) (omega arith))

-- A field at `k` of a header of `n` bytes.
part :
    (f g : Memory) (at n k len : ℕ)
    → Agrees f g at n
    → k + len ≤ n
    → load_bytes (at + k) len f ≡ load_bytes (at + k) len g
part f g at n k len same inside =
    load_bytes-Agrees f g (at + k) len λ q from to. same q (omega arith) (omega arith)

-- The headers are read from their own bytes.
pub record IsLocal (layout : Layout) : Type 0 where
  pub ehdr : (f g : Memory) → Agrees f g 0 64 → layout.ehdr_at f 0 ≡ layout.ehdr_at g 0
  pub phdr :
      (f g : Memory) (at : ℕ)
      → Agrees f g at layout.phdr_size
      → layout.phdr_at f at ≡ layout.phdr_at g at

phdr64-Agrees : (f g : Memory) (at : ℕ) → Agrees f g at 56 → phdr64 f at ≡ phdr64 g at
unfolding phdr64
phdr64-Agrees f g at same =
    let e : (k len : ℕ) → k + len ≤ 56 → load_bytes (at + k) len f ≡ load_bytes (at + k) len g =
      λ k len. part f g at 56 k len same in
    rw
      (
        load_bytes-Agrees f g at 4 (λ q from to. same q from (omega arith)),
        e 4 4 (omega arith),
        e 8 8 (omega arith),
        e 16 8 (omega arith),
        e 24 8 (omega arith),
        e 32 8 (omega arith),
        e 40 8 (omega arith),
        e 48 8 (omega arith),
      )
      refl

phdr32-Agrees : (f g : Memory) (at : ℕ) → Agrees f g at 32 → phdr32 f at ≡ phdr32 g at
unfolding phdr32
phdr32-Agrees f g at same =
    let e : (k len : ℕ) → k + len ≤ 32 → load_bytes (at + k) len f ≡ load_bytes (at + k) len g =
      λ k len. part f g at 32 k len same in
    rw
      (
        load_bytes-Agrees f g at 4 (λ q from to. same q from (omega arith)),
        e 4 4 (omega arith),
        e 8 4 (omega arith),
        e 12 4 (omega arith),
        e 16 4 (omega arith),
        e 20 4 (omega arith),
        e 24 4 (omega arith),
        e 28 4 (omega arith),
      )
      refl

ehdr64-Agrees : (f g : Memory) → Agrees f g 0 64 → ehdr64 f 0 ≡ ehdr64 g 0
unfolding ehdr64
ehdr64-Agrees f g same =
    let e : (k len : ℕ) → k + len ≤ 64 → load_bytes (0 + k) len f ≡ load_bytes (0 + k) len g =
      λ k len. part f g 0 64 k len same in
    rw
      (
        e 16 2 (omega arith),
        e 18 2 (omega arith),
        e 20 4 (omega arith),
        e 24 8 (omega arith),
        e 32 8 (omega arith),
        e 40 8 (omega arith),
        e 48 4 (omega arith),
        e 52 2 (omega arith),
        e 54 2 (omega arith),
        e 56 2 (omega arith),
        e 58 2 (omega arith),
        e 60 2 (omega arith),
        e 62 2 (omega arith),
      )
      refl

ehdr32-Agrees : (f g : Memory) → Agrees f g 0 64 → ehdr32 f 0 ≡ ehdr32 g 0
unfolding ehdr32
ehdr32-Agrees f g same =
    let e : (k len : ℕ) → k + len ≤ 64 → load_bytes (0 + k) len f ≡ load_bytes (0 + k) len g =
      λ k len. part f g 0 64 k len same in
    rw
      (
        e 16 2 (omega arith),
        e 18 2 (omega arith),
        e 20 4 (omega arith),
        e 24 4 (omega arith),
        e 28 4 (omega arith),
        e 32 4 (omega arith),
        e 36 4 (omega arith),
        e 40 2 (omega arith),
        e 42 2 (omega arith),
        e 44 2 (omega arith),
        e 46 2 (omega arith),
        e 48 2 (omega arith),
        e 50 2 (omega arith),
      )
      refl

pub layout64-IsLocal : IsLocal layout64
layout64-IsLocal = record { ehdr = ehdr64-Agrees; phdr = phdr64-Agrees }

pub layout32-IsLocal : IsLocal layout32
layout32-IsLocal = record { ehdr = ehdr32-Agrees; phdr = phdr32-Agrees }

module _ (layout : Layout) (size : ℕ) (f g : Memory) where
  preload-inside :
      (p : Phdr) (s : Loader)
      → Agrees f g 0 size
      → p.p_offset + p.p_filesz < 2 ^ layout.width
      → preload layout f size p s ≡ preload layout g size p s
  preload-inside p s same narrow = elim (Bool-cases (p.p_filesz == 0)) [
    | inl e ↦ rw e refl
    | inr e ↦ elim (Bool-cases (leb (field_sum layout f size p.p_offset p.p_filesz) size)) [
      | inr over ↦ rw (e, over) refl
      | inl fits ↦
          let sum : (p.p_offset + p.p_filesz) % 2 ^ layout.width ≡ p.p_offset + p.p_filesz =
            mod-eq_of_lt narrow in
          let content : load_bytes p.p_offset p.p_filesz f ≡ load_bytes p.p_offset p.p_filesz g =
            load_bytes-Agrees f g p.p_offset p.p_filesz
              λ q from to. same q (omega arith) (ground arith) in
          rw (e, fits, content) refl
    ]
  ]

  take_segment-inside :
      (p : Phdr) (s : Loader)
      → Agrees f g 0 size
      → p.p_offset + p.p_filesz < 2 ^ layout.width
      → take_segment layout f size p s ≡ take_segment layout g size p s
  unfolding take_segment
  take_segment-inside p s same narrow = rw (preload-inside p s same narrow) refl

  module _ (local : IsLocal layout) (same : Agrees f g 0 size) (header : 64 ≤ size) where
    eh-inside : eh layout f size ≡ eh layout g size
    eh-inside = local.ehdr f g λ q from to. same q from (omega arith)

    ph-inside :
        (n i : ℕ)
        → i < n
        → (eh layout f size).e_phoff + n * layout.phdr_size ≤ size
        → size < 2 ^ 64
        → ph layout f size i ≡ ph layout g size i
    ph-inside n i h table small =
        let size_of : ℕ = layout.phdr_size in
        let off : ℕ = (eh layout f size).e_phoff in
        let next : (i + 1) * size_of ≡ i * size_of + size_of = omega arith in
        let last : (i + 1) * size_of ≤ n * size_of = mul-le-mul_right size_of (omega arith) in
        let at : u64 (off + i * size_of) ≡ off + i * size_of = omega arith in
        ap (λ k. layout.phdr_at f k) at
        ∙ local.phdr f g (off + i * size_of) (λ q from to. same q (omega arith) (omega arith))
        ∙ ap (λ k. layout.phdr_at g k) (sym at)
        ∙ ap (λ (head : Ehdr). layout.phdr_at g (u64 (head.e_phoff + i * size_of))) eh-inside

    load_segments_inside :
        (left i n : ℕ) (s : Loader)
        → i + left ≤ n
        → (eh layout f size).e_phoff + n * layout.phdr_size ≤ size
        → size < 2 ^ 64
        → ((k : ℕ)
            → k < n
            → (ph layout f size k).p_offset + (ph layout f size k).p_filesz < 2 ^ layout.width)
        → load_segments layout f size left i s ≡ load_segments layout g size left i s
    unfolding load_segments
    load_segments_inside zero i n s h table small narrow = refl
    load_segments_inside (suc left) i n s h table small narrow =
        let one : take_segment layout f size (ph layout f size i) s
            ≡ take_segment layout g size (ph layout g size i) s =
          take_segment-inside (ph layout f size i) s same (narrow i (omega arith))
          ∙ ap (λ p. take_segment layout g size p s) (ph-inside n i (omega arith) table small) in
        elim (Option-cases (take_segment layout g size (ph layout g size i) s)) [
          | inl e ↦ rw (one, e) refl
          | inr (t, e) ↦
              rw (one, e) (load_segments_inside left (i + 1) n t (omega arith) table small narrow)
        ]

    -- Two files of the same size that have the same bytes, whose program headers end inside of them,
    -- and whose segments do not wrap around: the loop over the segments does the same with both,
    -- whatever lies in memory behind them.
    pub load_segments-inside :
        (s : Loader)
        → let head = eh layout f size in
          head.e_phoff + head.e_phnum * layout.phdr_size ≤ size
          → size < 2 ^ 64
          → ((k : ℕ)
              → k < head.e_phnum
              → (ph layout f size k).p_offset + (ph layout f size k).p_filesz < 2 ^ layout.width)
          → load_segments layout f size (eh layout f size).e_phnum 0 s
            ≡ load_segments layout g size (eh layout g size).e_phnum 0 s
    load_segments-inside s table small narrow =
        load_segments_inside (eh layout f size).e_phnum 0 (eh layout f size).e_phnum s (omega arith)
          table small narrow
        ∙ ap (λ (head : Ehdr). load_segments layout g size head.e_phnum 0 s) eh-inside
