-- ===== src/Elf/Loader.antt =====
-- The loader's state and its functions, in the order of target/sim/src/elfloader.cpp.
use cheshire_can.Prelude.{
  ℕ, ◌+◌, ◌^◌, Bool, true, false, ◌&&◌, Option, none, some, List, [], ◌∷◌, ◌++◌, ◌==◌, ltb,
  if◌then◌else◌, length, get_or,
}
use cheshire_can.Word.{sub64}
use cheshire_can.Machine.Store.{Memory, Bytes, load_bytes, put}

-- What is printed.
pub data Message : Type 0 where
  entrypoint : ℕ → Message
  not_preloaded : ℕ → ℕ → Message
  string_table : ℕ → Message
  symbol_table : ℕ → Message
  small_program_headers small_section_headers names_out_of_bounds small_names : Message
  no_section : ℕ → Message
  full_buffer : ℕ → Message
  not_opened no_stats too_small not_mapped mapped no_signature not_read : Message
  stream_not_opened stream_too_small : Message

pub record Section : Type 0 where
  pub address : ℕ
  pub size : ℕ

-- The globals: an entry of `mems` is an address and its content, and no address has two.
pub record Loader : Type 0 where
  pub sections : List Section
  pub mems : List (ℕ × Bytes)
  pub entry : ℕ
  pub section_index : ℕ
  pub log : List Message

abbrev pub fresh : Loader
fresh = record { sections = []; mems = []; entry = 0; section_index = 0; log = [] }

abbrev pub say : Message → Loader → Loader
say message s = record s { log = s.log ++ (message ∷ []) }

-- `std::map::find`
unfoldable pub lookup : ℕ → List (ℕ × Bytes) → Option Bytes
lookup address [] = none
lookup address ((key, content) ∷ mems) =
    if key == address then some content else lookup address mems

abbrev pub insert_absent : Option Bytes → ℕ → Bytes → List (ℕ × Bytes) → List (ℕ × Bytes)
insert_absent none address content mems = (address, content) ∷ mems
insert_absent (some old) address content mems = mems

-- `std::map::insert`, which leaves an entry that is there alone.
unfoldable pub insert : ℕ → Bytes → List (ℕ × Bytes) → List (ℕ × Bytes)
insert address content mems = insert_absent (lookup address mems) address content mems

-- `write`, with the bytes that `buf` points to. Its counter is an `int`, which from 2^31 bytes on overflows:
-- what C leaves undefined is `none`.
abbrev pub write : ℕ → Bytes → Loader → Option Loader
write address content s =
    if ltb (length content) (2 ^ 31)
    then some (record s { mems = insert address content s.mems })
    else none

unfoldable pub get_entry : Loader → ℕ
get_entry s = s.entry

abbrev pub nth_section : List Section → ℕ → Section
nth_section sections i = get_or sections i (record { address = 0; size = 0 })

-- The section of the iterator, or that there is none; the iterator moves on.
unfoldable pub get_section : Loader → Option Section × Loader
get_section s =
    if ltb s.section_index (length s.sections)
    then (
      some (nth_section s.sections s.section_index),
      record s { section_index = s.section_index + 1 },
    )
    else (none, s)

-- The loop of `read_section`: whether all was copied. `left` is `len_tmp`.
unfoldable pub copy_section : ℕ → Bytes → ℕ → Memory → Bool × Memory
copy_section left [] buf target = (true, target)
copy_section left (datum ∷ content) buf target =
    let rest = copy_section (sub64 left 1) content (buf + 1) (put target buf datum) in
    if left == 0 then (false, target) else rest

-- -1 as a `char`
abbrev pub minus_one : ℕ
minus_one = 0xff

abbrev pub copied_code : ℕ → Bool → Loader → ℕ × Loader
copied_code len true s = (0, s)
copied_code len false s = (minus_one, say (full_buffer len) s)

abbrev pub read_found : Option Bytes → ℕ → ℕ → ℕ → Memory → Loader → ℕ × Memory × Loader
read_found none address buf len target s = (minus_one, target, say (no_section address) s)
read_found (some content) address buf len target s =
    let (done, target') = copy_section len content buf target in
    let (code, s') = copied_code len done s in (code, target', s')

-- The address and the length are 64 bits; a negative length is its two's complement.
unfoldable pub read_section : ℕ → ℕ → ℕ → Memory → Loader → ℕ × Memory × Loader
read_section address buf len target s = read_found (lookup address s.mems) address buf len target s

-- `strcmp` with a literal, whose bytes end with the only zero, is 0.
abbrev pub same_bytes : Bytes → Bytes → Bool
same_bytes [] ys = true
same_bytes (x ∷ xs) [] = false
same_bytes (x ∷ xs) (y ∷ ys) = x == y && same_bytes xs ys

abbrev pub strtab : Bytes
strtab = 0x2e ∷ 0x73 ∷ 0x74 ∷ 0x72 ∷ 0x74 ∷ 0x61 ∷ 0x62 ∷ 0 ∷ []

abbrev pub symtab : Bytes
symtab = 0x2e ∷ 0x73 ∷ 0x79 ∷ 0x6d ∷ 0x74 ∷ 0x61 ∷ 0x62 ∷ 0 ∷ []

unfoldable pub is_named : Memory → ℕ → Bytes → Bool
is_named image at name = same_bytes name (load_bytes at (length name) image)
