-- ===== src/Elf/Load.antt =====
-- What the loader of target/sim/src/elfloader.cpp takes from a file: load_elf and read_elf.
use cheshire_can.Prelude.{
  ℕ, zero, suc, ◌+◌, ◌-◌, ◌*◌, ◌%◌, ◌^◌, Bool, ◌&&◌, ◌||◌, not, Option, none, some, [], ◌∷◌, ◌++◌,
  ◌==◌, ◌!=◌, ltb, leb, if◌then◌else◌,
}
use cheshire_can.Word.{u64}
use cheshire_can.Machine.Store.{Memory, Bytes, load_bytes}
use cheshire_can.Elf.{Ehdr, Phdr, Shdr, Layout, layout32, layout64, is_elf32, is_elf64}
use cheshire_can.Elf.Loader.{
  Loader, entrypoint, is_named, mapped, minus_one, names_out_of_bounds, no_signature, no_stats,
  not_mapped, not_opened, not_preloaded, not_read, say, small_names, small_program_headers,
  small_section_headers, string_table, strtab, symbol_table, symtab, too_small, write,
  stream_not_opened, stream_too_small,
}

module _ (layout : Layout) (image : Memory) (size : ℕ) where
  abbrev pub eh : Ehdr
  eh = layout.ehdr_at image 0

  abbrev pub ph : ℕ → Phdr
  ph i = layout.phdr_at image (u64 (eh.e_phoff + i * layout.phdr_size))

  abbrev pub sh : ℕ → Shdr
  sh i = layout.shdr_at image (u64 (eh.e_shoff + i * layout.shdr_size))

  -- A sum of an offset and a size wraps at their width.
  abbrev pub field_sum : ℕ → ℕ → ℕ
  field_sum a b = (a + b) % 2 ^ layout.width

  -- `p_type == PT_LOAD && p_memsz`
  abbrev pub is_loadable : Phdr → Bool
  is_loadable p = p.p_type == 1 && p.p_memsz != 0

  abbrev pub content_of : Phdr → Bytes
  content_of p = load_bytes p.p_offset p.p_filesz image

  -- A segment with bytes in the file; `none` is a failed assertion, which ends the simulation, or a `write`
  -- that C leaves undefined.
  abbrev pub preload : Phdr → Loader → Option Loader
  preload p s =
      if p.p_filesz == 0
      then some s
      else if leb (field_sum p.p_offset p.p_filesz) size
      then write p.p_paddr (content_of p) (record s {
        sections = s.sections ++ (record { address = p.p_paddr; size = p.p_memsz } ∷ []);
      })
      else none

  abbrev pub warn_zeros : Phdr → Loader → Loader
  warn_zeros p s =
      if ltb p.p_filesz p.p_memsz
      then say (not_preloaded p.p_paddr (p.p_memsz - p.p_filesz)) s
      else s

  abbrev pub if_loaded : Option Loader → (Loader → Option Loader) → Option Loader
  if_loaded none next = none
  if_loaded (some s) next = next s

  -- One round of the loop over the program headers.
  unfoldable pub take_segment : Phdr → Loader → Option Loader
  take_segment p s =
      if is_loadable p then if_loaded (preload p s) (λ t. some (warn_zeros p t)) else some s

  -- The loop over the program headers from `i` on, with so many left.
  unfoldable pub load_segments : ℕ → ℕ → Loader → Option Loader
  load_segments zero i s = some s
  load_segments (suc left) i s = if_loaded (take_segment (ph i) s) (load_segments left (i + 1))

  -- A section header that is named like one of two tables, which are not used any further.
  abbrev pub tell_table : ℕ → Loader → Loader
  tell_table i s =
      let name = u64 ((sh eh.e_shstrndx).sh_offset + (sh i).sh_name) in
      if is_named image name strtab
      then say (string_table (sh i).sh_offset) s
      else if is_named image name symtab
      then say (symbol_table (sh i).sh_offset) s
      else s

  -- The loop over the section headers.
  unfoldable pub find_tables : ℕ → ℕ → Loader → Loader
  find_tables zero i s = s
  find_tables (suc left) i s = find_tables left (i + 1) (tell_table i s)

  abbrev pub check_sections : Loader → Loader
  check_sections s =
      if ltb size (u64 (eh.e_shoff + eh.e_shnum * layout.shdr_size))
      then say small_section_headers s
      else if leb eh.e_shnum eh.e_shstrndx
      then say names_out_of_bounds s
      else if ltb size (field_sum (sh eh.e_shstrndx).sh_offset (sh eh.e_shstrndx).sh_size)
      then say small_names s
      else find_tables eh.e_shnum 0 s

  unfoldable pub load_elf : Loader → Option Loader
  load_elf s =
      if ltb size (u64 (eh.e_phoff + eh.e_phnum * layout.phdr_size))
      then some (say small_program_headers s)
      else if_loaded
          (load_segments eh.e_phnum 0
            (say (entrypoint eh.e_entry) (record s { entry = eh.e_entry })))
          (λ t. some (check_sections t))

-- What the operating system makes of a file: the last field is what its bytes in memory look like,
-- with whatever follows them.
pub record File : Type 0 where
  pub opens : Bool
  pub stats : Bool
  pub maps : Bool
  pub reads : Bool
  pub size : ℕ
  pub image : Memory

abbrev pub returned : ℕ → Option Loader → Option (ℕ × Loader)
returned code none = none
returned code (some s) = some (code, s)

abbrev pub load_signed : Memory → ℕ → Loader → Option (ℕ × Loader)
load_signed image size s =
    if not (is_elf32 image || is_elf64 image)
    then some (minus_one, say no_signature s)
    else returned 0
        (if is_elf32 image then load_elf layout32 image size s else load_elf layout64 image size s)

-- `read_elf` with `mmap`; `none` is as in `preload`.
unfoldable pub read_elf : File → Loader → Option (ℕ × Loader)
read_elf file s =
    if not file.opens
    then some (minus_one, say not_opened s)
    else if not file.stats
    then some (minus_one, say no_stats s)
    else if ltb file.size 64
    then some (minus_one, say too_small s)
    else if not file.maps
    then some (minus_one, say not_mapped s)
    else load_signed file.image file.size (say mapped s)

-- `read_elf` with a stream
unfoldable pub read_elf_stream : File → Loader → Option (ℕ × Loader)
read_elf_stream file s =
    if not file.opens
    then some (minus_one, say stream_not_opened s)
    else if not file.reads
    then some (minus_one, say not_read s)
    else if ltb file.size 64
    then some (minus_one, say stream_too_small s)
    else load_signed file.image file.size s
