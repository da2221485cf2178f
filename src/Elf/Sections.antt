-- ===== src/Elf/Sections.antt =====
-- What the testbench gets of an ELF file: the sections one by one, and their bytes in a buffer.
-- `fetch_all` is its loop, `while (get_section(...))` of target/sim/src/vip_cheshire_soc.sv.
use mathlib.Core.Path.{ap₂}
use cheshire_can.Prelude.{
  ℕ, zero, suc, ◌+◌, ◌-◌, ◌^◌, ◌≤◌, ◌<◌, ◌≡◌, refl, ap, ◌∙◌, inl, inr, Bool, true, false, Option,
  none, some, List, [], ◌∷◌, ◌++◌, arith, ◌==◌, ltb, leb, if◌then◌else◌, Bool-cases, All, get_or,
  length, take, drop, replicate,
}
use cheshire_can.Word.{sub64}
use cheshire_can.Machine.Store.{
  Memory, Bytes, load_bytes, store_bytes, put, length-load_bytes, load_bytes-add,
  load_bytes-store_bytes, load_bytes-store_bytes_apart,
}
use cheshire_can.Elf.{Phdr, Layout}
use cheshire_can.Elf.Loader.{
  Section, Loader, fresh, lookup, nth_section, get_section, copy_section, minus_one, read_section,
}
use cheshire_can.Elf.Load.{content_of, File, read_elf}
use cheshire_can.Elf.Segments.{section_of, sections_of, first_at, Took}
use cheshire_can.Elf.Read.{is_readable, layout_of, IsWhole, all_segments, read_elf-Took}

copy_section_lem :
    (left : ℕ) (content : Bytes) (buf : ℕ) (target : Memory)
    → left < 2 ^ 64
    → copy_section left content buf target
      ≡ (leb (length content) left, store_bytes buf (take left content) target)
unfolding copy_section store_bytes
copy_section_lem zero [] buf target h = refl
copy_section_lem (suc left) [] buf target h = ground arith
copy_section_lem zero (x ∷ content) buf target h = ground arith
copy_section_lem (suc left) (x ∷ content) buf target h =
    let fewer : sub64 (suc left) 1 ≡ left = omega arith in
    rw (fewer, copy_section_lem left content (buf + 1) (put target buf x) (omega arith))
      (ground arith)

-- Reading a section that the loader has, into a buffer of less than 2^64 bytes: the buffer gets the
-- section's bytes, as many of them as it can take, and nothing else changes; the code is 0 if these
-- are all, and -1 otherwise.
pub read_section-copies :
    (address buf len : ℕ) (target : Memory) (s : Loader) (content : Bytes)
    → lookup address s.mems ≡ some content
    → len < 2 ^ 64
    → ((read_section address buf len target s).0
        ≡ (if leb (length content) len then 0 else minus_one))
      × ((read_section address buf len target s).1 ≡ store_bytes buf (take len content) target)
unfolding read_section
read_section-copies address buf len target s content there small =
    rw (there, copy_section_lem len content buf target small)
      (elim (Bool-cases (leb (length content) len)) [
        | inl e ↦ rw e (refl, refl)
        | inr e ↦ rw e (refl, refl)
      ])

abbrev zeros : Memory
zeros p = 0

abbrev pub Chunk : Type 0
Chunk = ℕ × Bytes

abbrev pub cons_if : Bool → Chunk → Option (List Chunk) → Option (List Chunk)
cons_if true chunk none = none
cons_if true chunk (some chunks) = some (chunk ∷ chunks)
cons_if false chunk rest = none

-- One section, into a new buffer of its size.
abbrev pub fetch_next :
    Option Section → Loader → (Loader → Option (List Chunk)) → Option (List Chunk)
fetch_next none s next = some []
fetch_next (some t) s next =
    let (code, target, s') = read_section t.address 0 t.size (λ p. 0) s in
    cons_if (code == 0) (t.address, load_bytes 0 t.size target) (next s')

-- The addresses and bytes of all sections, for so many rounds of the loop; `none` is a fatal error.
unfoldable pub fetch_all : ℕ → Loader → Option (List Chunk)
fetch_all zero s = none
fetch_all (suc rounds) s = let (t, s') = get_section s in fetch_next t s' (fetch_all rounds)

load_bytes-zeros : (p n : ℕ) → load_bytes p n zeros ≡ replicate n 0
unfolding load_bytes
load_bytes-zeros p zero = refl
load_bytes-zeros p (suc n) = ap (λ t. 0 ∷ t) (load_bytes-zeros (p + 1) n)

padded :
    (n : ℕ) (content : Bytes)
    → length content ≤ n
    → load_bytes 0 n (store_bytes 0 content zeros) ≡ content ++ replicate (n - length content) 0
padded n content h =
    let whole : n ≡ length content + (n - length content) = omega arith in
    ap (λ k. load_bytes 0 k (store_bytes 0 content zeros)) whole
    ∙ load_bytes-add 0 (length content) (n - length content) (store_bytes 0 content zeros)
    ∙ ap₂ ◌++◌ (load_bytes-store_bytes 0 content zeros) (
        ap (λ p. load_bytes p (n - length content) (store_bytes 0 content zeros))
          {x = 0 + length content} {y = length content} (omega arith)
        ∙ load_bytes-store_bytes_apart (length content) (n - length content) 0 content zeros
            (inr (omega arith))
        ∙ load_bytes-zeros (length content) (n - length content))

take_long : (n : ℕ) (xs : Bytes) → length xs ≤ n → take n xs ≡ xs
take_long zero [] h = refl
take_long zero (x ∷ xs) h = absurd (omega arith)
take_long (suc n) [] h = refl
take_long (suc n) (x ∷ xs) h = ap (λ t. x ∷ t) (take_long n xs (omega arith))

read_section_lem :
    (address len : ℕ) (s : Loader) (content : Bytes)
    → lookup address s.mems ≡ some content
    → length content ≤ len
    → len < 2 ^ 64
    → read_section address 0 len zeros s ≡ (0, store_bytes 0 content zeros, s)
unfolding read_section
read_section_lem address len s content there short small =
    let all : leb (length content) len ≡ true = ground arith in
    rw (there, copy_section_lem len content 0 zeros small, all, take_long len content short) refl

at_index :
    (i : ℕ) (xs : List Section) (x : Section) (ys : List Section)
    → drop i xs ≡ x ∷ ys
    → (ltb i (length xs) ≡ true) × (nth_section xs i ≡ x) × (drop (i + 1) xs ≡ ys)
at_index zero [] x ys e = cc
at_index (suc i) [] x ys e = cc
at_index zero (z ∷ xs) x ys e = (ground arith, ap (λ t. get_or t 0 x) e, ap (drop 1) e)
at_index (suc i) (z ∷ xs) x ys e =
    let (inside, found, rest) = at_index i xs x ys e in
    let next : suc i + 1 ≡ suc (i + 1) = omega arith in (ground arith, found, rw next rest)

past_index : (i : ℕ) (xs : List Section) → drop i xs ≡ [] → ltb i (length xs) ≡ false
past_index zero [] e = ground arith
past_index (suc i) [] e = ground arith
past_index zero (z ∷ xs) e = cc
past_index (suc i) (z ∷ xs) e = ground (arith, past_index i xs e)

module _ (layout : Layout) (image : Memory) (size : ℕ) where
  -- What the testbench is to load of a segment: its bytes in the file, and zeros up to its size.
  abbrev pub chunk_of : Phdr → Chunk
  chunk_of p = (p.p_paddr, content_of layout image size p ++ replicate (p.p_memsz - p.p_filesz) 0)

  abbrev pub chunks_of : List Phdr → List Chunk
  chunks_of [] = []
  chunks_of (p ∷ ps) = chunk_of p ∷ chunks_of ps

  -- The bytes in the file are no more than those in memory, of which there are less than 2^64.
  abbrev pub IsSized : Phdr → Type 0
  IsSized p = (p.p_filesz ≤ p.p_memsz) × (p.p_memsz < 2 ^ 64)

  -- No segment before it has its address.
  abbrev pub IsFirst : List Phdr → Phdr → Type 0
  IsFirst ps p = first_at layout image size p.p_paddr ps ≡ some (content_of layout image size p)

  abbrev IsHeld : Loader → Phdr → Type 0
  IsHeld s p = lookup p.p_paddr s.mems ≡ some (content_of layout image size p)

  fetch_all_lem :
      (rounds : ℕ) (ps : List Phdr) (s : Loader)
      → drop s.section_index s.sections ≡ sections_of ps
      → All IsSized ps
      → All (IsHeld s) ps
      → length ps < rounds
      → fetch_all rounds s ≡ some (chunks_of ps)
  unfolding fetch_all get_section
  fetch_all_lem zero ps s e sized held enough = absurd (omega arith)
  fetch_all_lem (suc rounds) [] s e sized held enough =
      rw (past_index s.section_index s.sections e) refl
  fetch_all_lem (suc rounds) (p ∷ ps) s e sized held enough =
      let (inside, found, rest) =
        at_index s.section_index s.sections (section_of p) (sections_of ps) e in
      let content : Bytes = content_of layout image size p in
      let n : length content ≡ p.p_filesz = length-load_bytes p.p_offset p.p_filesz image in
      let short : length content ≤ p.p_memsz = rw n sized.0.0 in
      let next : Loader = record s { section_index = s.section_index + 1 } in
      let bytes : load_bytes 0 p.p_memsz (store_bytes 0 content zeros)
          ≡ content ++ replicate (p.p_memsz - p.p_filesz) 0 =
        padded p.p_memsz content short ∙ rw n refl in
      rw (inside, found, read_section_lem p.p_paddr p.p_memsz next content held.0 short sized.0.1)
        (ap₂ (λ chunk rest. cons_if true (p.p_paddr, chunk) rest) bytes
          (fetch_all_lem rounds ps next rest sized.1 held.1 (omega arith)))

  held_lem :
      (ps qs : List Phdr) (s t : Loader)
      → ((a : ℕ) → lookup a s.mems ≡ none)
      → Took layout image size ps s t
      → All (IsFirst ps) qs
      → All (IsHeld t) qs
  held_lem ps [] s t empty took first = tt
  held_lem ps (q ∷ qs) s t empty took first = (
    took.mems q.p_paddr ∙ rw (empty q.p_paddr, first.0) refl,
    held_lem ps qs s t empty took first.1,
  )

-- Loading a whole file that can be read, whose loadable segments with bytes in the file have an address of
-- their own each, less than 2^31 bytes in the file, and a size in memory that is at least that and less than
-- 2^64: the loader returns 0, and the loop of the testbench, for more rounds than there are such
-- segments, ends without error with all of them in order, each with its bytes of the file, followed by
-- zeros up to its size. A segment without bytes in the file is not among them.
pub read_elf-fetch_all :
    (file : File) (rounds : ℕ)
    → let layout = layout_of file.image in
      let ps = all_segments layout file.image file.size in
      is_readable file ≡ true
      → IsWhole layout file.image file.size
      → All (IsSized layout file.image file.size) ps
      → All (IsFirst layout file.image file.size ps) ps
      → length ps < rounds
      → (t : Loader) × (read_elf file fresh ≡ some (0, t))
        × (fetch_all rounds t ≡ some (chunks_of layout file.image file.size ps))
unfolding lookup
read_elf-fetch_all file rounds readable whole sized first enough =
    let layout : Layout = layout_of file.image in
    let ps : List Phdr = all_segments layout file.image file.size in
    let (t, runs, took) = read_elf-Took file fresh readable whole in
    let start : drop t.section_index t.sections ≡ sections_of ps =
      rw (took.index, took.sections) refl in
    (
      t,
      runs,
      fetch_all_lem layout file.image file.size rounds ps t start sized
          (held_lem layout file.image file.size ps ps _ t (λ a. refl) took first) enough,
    )
