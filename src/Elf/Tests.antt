-- ===== src/Elf/Tests.antt =====
-- A file of two segments, its truncation, and the loader's calls on them.
use cheshire_can.Prelude.{
  ℕ, zero, suc, ◌+◌, ◌*◌, ◌≤◌, ◌<◌, ◌≡◌, refl, Bool, true, some, List, [], ◌∷◌, ◌++◌, arith, ◌^◌,
  All, length, get_or, ltb, if◌then◌else◌,
}
use cheshire_can.Word.{u64, le_bytes}
use cheshire_can.Machine.Store.{Memory, Bytes, load_bytes, store_bytes}
use cheshire_can.Elf.{layout64, ehdr64, phdr64, shdr64}
use cheshire_can.Elf.Loader.{
  Message, Loader, fresh, lookup, insert, get_section, minus_one, copy_section, read_section,
}
use cheshire_can.Elf.Load.{
  eh, ph, load_elf, find_tables, load_segments, take_segment, File, read_elf,
}
use cheshire_can.Elf.Keeps.{IsConsistent}
use cheshire_can.Elf.Calls.{here, more, read, next, Reach-IsConsistent}
use cheshire_can.Elf.Segments.{segments, first_at}
use cheshire_can.Elf.Read.{
  IsWhole, all_segments, read_elf-Took, read_elf-refuses, read_elf-truncated,
}
use cheshire_can.Elf.Sections.{
  IsSized, IsFirst, fetch_all, chunks_of, read_section-copies, read_elf-fetch_all,
}
use cheshire_can.Elf.Inside.{Agrees, layout64-IsLocal, load_segments-inside}

abbrev header : Bytes
header =
    0x7f ∷ 0x45 ∷ 0x4c ∷ 0x46 ∷ 2 ∷ 1 ∷ 1 ∷ 0 ∷ le_bytes 8 0
    ++ le_bytes 2 2
    ++ le_bytes 2 243
    ++ le_bytes 4 1
    ++ le_bytes 8 0x80000000
    ++ le_bytes 8 64
    ++ le_bytes 8 182
    ++ le_bytes 4 0
    ++ le_bytes 2 64
    ++ le_bytes 2 56
    ++ le_bytes 2 2
    ++ le_bytes 2 64
    ++ le_bytes 2 0
    ++ le_bytes 2 0

-- A segment at an offset, for an address, of so many bytes in the file and in memory.
abbrev segment : ℕ → ℕ → ℕ → ℕ → Bytes
segment offset paddr filesz memsz =
    le_bytes 4 1
    ++ le_bytes 4 5
    ++ le_bytes 8 offset
    ++ le_bytes 8 paddr
    ++ le_bytes 8 paddr
    ++ le_bytes 8 filesz
    ++ le_bytes 8 memsz
    ++ le_bytes 8 4

abbrev bytes : Bytes
bytes =
    header
    ++ segment 176 0x80000000 4 4
    ++ segment 180 0x80001000 2 5
    ++ (0x13 ∷ 0x05 ∷ 0xa0 ∷ 0x02 ∷ 0xaa ∷ 0xbb ∷ [])

abbrev image : Memory
image q = get_or bytes q 0

abbrev program : File
program = record {
  opens = true;
  stats = true;
  maps = true;
  reads = true;
  size = 182;
  image = image;
}

-- Loading and fetching as they run.
fetched :
    (t : Loader) × (read_elf program fresh ≡ some (0, t))
    × (fetch_all 5 t
        ≡ some (
            (0x80000000, 0x13 ∷ 0x05 ∷ 0xa0 ∷ 0x02 ∷ [])
            ∷ (0x80001000, 0xaa ∷ 0xbb ∷ 0 ∷ 0 ∷ 0 ∷ [])
            ∷ []))
unfolding read_elf load_elf load_segments take_segment insert lookup fetch_all get_section
    read_section copy_section load_bytes ehdr64 phdr64 shdr64 find_tables
fetched = (_, refl, refl)

program-IsWhole : IsWhole layout64 image 182
unfolding segments ehdr64 phdr64 load_bytes
program-IsWhole = record {
  table = omega arith;
  fits = ((omega arith, omega arith), ((omega arith, omega arith), tt));
}

program-IsSized : All (IsSized layout64 image 182) (all_segments layout64 image 182)
unfolding segments ehdr64 phdr64 load_bytes
program-IsSized = ((omega arith, omega arith), ((omega arith, omega arith), tt))

program-IsFirst :
    All
      (IsFirst layout64 image 182 (all_segments layout64 image 182))
      (all_segments layout64 image 182)
unfolding segments ehdr64 phdr64 load_bytes first_at
program-IsFirst = (refl, (refl, tt))

program-length : length (all_segments layout64 image 182) < 5
unfolding segments ehdr64 phdr64 load_bytes
program-length = omega arith

read_elf-fetch_all_example :
    (t : Loader) × (read_elf program fresh ≡ some (0, t))
    × (fetch_all 5 t ≡ some (chunks_of layout64 image 182 (all_segments layout64 image 182)))
read_elf-fetch_all_example =
    read_elf-fetch_all program 5 refl program-IsWhole program-IsSized program-IsFirst program-length

loaded : Loader
loaded = record {
  sections = record { address = 0x80000000; size = 4 } ∷ [];
  mems = (0x80000000, 0x13 ∷ 0x05 ∷ 0xa0 ∷ 0x02 ∷ []) ∷ [];
  entry = 0x80000000;
  section_index = 0;
  log = [];
}

loaded-lookup : lookup 0x80000000 loaded.mems ≡ some (0x13 ∷ 0x05 ∷ 0xa0 ∷ 0x02 ∷ [])
unfolding lookup loaded
loaded-lookup = refl

-- A buffer that is too small.
read_section-copies_example :
    ((read_section 0x80000000 16 3 (λ q. 0) loaded).0 ≡ minus_one)
    × ((read_section 0x80000000 16 3 (λ q. 0) loaded).1
        ≡ store_bytes 16 (0x13 ∷ 0x05 ∷ 0xa0 ∷ []) (λ q. 0))
read_section-copies_example =
    read_section-copies 0x80000000 16 3 (λ q. 0) loaded (0x13 ∷ 0x05 ∷ 0xa0 ∷ 0x02 ∷ [])
      loaded-lookup (omega arith)

abbrev closed : File
closed = record program { size = 63 }

read_elf-refuses_example :
    (log : List Message) × (read_elf closed loaded ≡ some (minus_one, record loaded { log = log }))
read_elf-refuses_example = read_elf-refuses closed loaded refl

-- Only the first program header is there.
abbrev truncated : File
truncated = record program { size = 130 }

truncated-short : 130 < u64 ((eh layout64 image 130).e_phoff + (eh layout64 image 130).e_phnum * 56)
unfolding ehdr64 load_bytes
truncated-short = omega arith

read_elf-truncated_example :
    (log : List Message) × (read_elf truncated fresh ≡ some (0, record fresh { log = log }))
read_elf-truncated_example = read_elf-truncated truncated fresh refl truncated-short

-- Another memory behind the file.
abbrev other : Memory
other q = if ltb q 182 then image q else 0xff

below_end : (q : ℕ) → q < 0 + 182 → ltb q 182 ≡ true
below_end q to = ground arith

chosen : (b : Bool) (x y : ℕ) → b ≡ true → x ≡ (if b then x else y)
chosen b x y e = rw e refl

other-Agrees : Agrees image other 0 182
other-Agrees q from to = chosen (ltb q 182) (image q) 0xff (below_end q to)

program-table : (eh layout64 image 182).e_phoff + (eh layout64 image 182).e_phnum * 56 ≤ 182
unfolding ehdr64 load_bytes
program-table = omega arith

program-narrow :
    (k : ℕ)
    → k < (eh layout64 image 182).e_phnum
    → (ph layout64 image 182 k).p_offset + (ph layout64 image 182 k).p_filesz < 2 ^ 64
unfolding ehdr64 phdr64 load_bytes
program-narrow zero h = omega arith
program-narrow (suc zero) h = omega arith
program-narrow (suc (suc k)) h = absurd (omega arith)

load_segments-inside_example :
    load_segments layout64 image 182 (eh layout64 image 182).e_phnum 0 fresh
    ≡ load_segments layout64 other 182 (eh layout64 other 182).e_phnum 0 fresh
load_segments-inside_example =
    load_segments-inside layout64 182 image other layout64-IsLocal other-Agrees (omega arith) fresh
      program-table (omega arith) program-narrow

fetched_once : Loader
fetched_once = (get_section (read_elf-Took program fresh refl program-IsWhole).0).1

-- A read, and a step of the iterator.
Reach-IsConsistent_example : IsConsistent fetched_once
unfolding fetched_once
Reach-IsConsistent_example =
    Reach-IsConsistent
      (more (more here (read program 0 (read_elf-Took program fresh refl program-IsWhole).1)) next)
