-- ===== src/Elf/Read.antt =====
-- `read_elf` of target/sim/src/elfloader.cpp on a file that can be loaded, and on one that cannot.
use cheshire_can.Prelude.{
  ℕ, zero, suc, ◌+◌, ◌*◌, ◌≤◌, ◌<◌, ◌≡◌, refl, ◌∙◌, inl, inr, Bool, true, false, ◌&&◌, ◌||◌, some,
  List, [], ◌∷◌, ◌++◌, arith, ltb, leb, if◌then◌else◌, Bool-cases, All,
}
use cheshire_can.Word.{u64}
use cheshire_can.Machine.Store.{Memory}
use cheshire_can.Elf.{Ehdr, Phdr, Layout, layout32, layout64, is_elf32, is_elf64}
use cheshire_can.Elf.Loader.{
  Message, minus_one, entrypoint, small_section_headers, names_out_of_bounds, small_names,
  small_program_headers, mapped, not_opened, no_stats, too_small, not_mapped, no_signature,
  string_table, symbol_table, Loader, say,
}
use cheshire_can.Elf.Load.{
  eh, sh, tell_table, find_tables, check_sections, load_elf, File, returned, read_elf,
}
use cheshire_can.Elf.Segments.{segments, Fits, Took, load_segments-Took}

module _ (layout : Layout) (image : Memory) (size : ℕ) where
  say-Took :
      (ps : List Phdr) (s t : Loader) (m : Message)
      → Took layout image size ps s t
      → Took layout image size ps s (say m t)
  say-Took ps s t m took = record {
    sections = took.sections;
    mems = took.mems;
    entry = took.entry;
    index = took.index;
  }

  tell_table-Took :
      (i : ℕ) (ps : List Phdr) (s t : Loader)
      → Took layout image size ps s t
      → Took layout image size ps s (tell_table layout image size i t)
  tell_table-Took i ps s t took =
      let offset : ℕ = (sh layout image size i).sh_offset in
      ground (
        arith,
        say-Took ps s t (string_table offset) took,
        say-Took ps s t (symbol_table offset) took,
      )

  find_tables-Took :
      (left i : ℕ) (ps : List Phdr) (s t : Loader)
      → Took layout image size ps s t
      → Took layout image size ps s (find_tables layout image size left i t)
  unfolding find_tables
  find_tables-Took zero i ps s t took = took
  find_tables-Took (suc left) i ps s t took =
      find_tables-Took left (i + 1) ps s (tell_table layout image size i t)
        (tell_table-Took i ps s t took)

  check_sections-Took :
      (ps : List Phdr) (s t : Loader)
      → Took layout image size ps s t
      → Took layout image size ps s (check_sections layout image size t)
  check_sections-Took ps s t took =
      let said : (m : Message) → Took layout image size ps s (say m t) =
        λ m. say-Took ps s t m took in
      let found : Took layout image size ps s
          (find_tables layout image size (eh layout image size).e_shnum 0 t) =
        find_tables-Took _ 0 ps s t took in
      ground (arith, said small_section_headers, said names_out_of_bounds, said small_names, found)

  abbrev pub all_segments : List Phdr
  all_segments = segments layout image size (eh layout image size).e_phnum 0

  -- The table of program headers and the segments end inside of the file, and no segment has 2^31 bytes of it.
  pub record IsWhole : Type 0 where
    pub table :
        u64 ((eh layout image size).e_phoff + (eh layout image size).e_phnum * layout.phdr_size)
        ≤ size
    pub fits : All (Fits layout image size) all_segments

  load_elf-Took :
      (s : Loader)
      → IsWhole
      → (t : Loader) × (load_elf layout image size s ≡ some t)
        × Took layout image size all_segments
            (record s { entry = (eh layout image size).e_entry })
            t
  unfolding load_elf
  load_elf-Took s whole =
      let head : Ehdr = eh layout image size in
      let start : Loader = record s { entry = head.e_entry } in
      let (t, loaded, took) =
        load_segments-Took layout image size head.e_phnum 0 (say (entrypoint head.e_entry) start)
          whole.fits in
      let enough : ltb size (u64 (head.e_phoff + head.e_phnum * layout.phdr_size)) ≡ false =
        ground (arith, whole.table) in
      (
        check_sections layout image size t,
        rw (enough, loaded) refl,
        check_sections-Took all_segments start t (record {
          sections = took.sections;
          mems = took.mems;
          entry = took.entry;
          index = took.index;
        }),
      )

abbrev pub layout_of : Memory → Layout
layout_of image = if is_elf32 image then layout32 else layout64

-- The file can be read, and begins like an ELF file.
abbrev pub is_readable : File → Bool
is_readable file =
    file.opens
    && file.stats
    && file.maps
    && leb 64 file.size
    && (is_elf32 file.image || is_elf64 file.image)

read_elf-load_elf :
    (file : File) (s : Loader)
    → is_readable file ≡ true
    → read_elf file s
      ≡ returned 0 (load_elf (layout_of file.image) file.image file.size (say mapped s))
unfolding read_elf
read_elf-load_elf file s readable = ground arith

-- Reading a file of which the loader can make sense, whose headers and segments end inside of the file,
-- and whose segments have less than 2^31 bytes there: it returns 0, and has the file's entry point, the section of every loadable segment that has
-- bytes in the file behind those that were there, and for a new address the bytes of the first segment
-- at that address.
pub read_elf-Took :
    (file : File) (s : Loader)
    → is_readable file ≡ true
    → IsWhole (layout_of file.image) file.image file.size
    → (t : Loader) × (read_elf file s ≡ some (0, t))
      × Took
          (layout_of file.image)
          file.image
          file.size
          (all_segments (layout_of file.image) file.image file.size)
          (record s { entry = (eh (layout_of file.image) file.image file.size).e_entry })
          t
read_elf-Took file s readable whole =
    let layout : Layout = layout_of file.image in
    let (t, loaded, took) = load_elf-Took layout file.image file.size (say mapped s) whole in
    (
      t,
      read_elf-load_elf file s readable ∙ rw loaded refl,
      record { sections = took.sections; mems = took.mems; entry = took.entry; index = took.index },
    )

-- A file that cannot be read or does not begin like an ELF file is an error, and changes nothing but
-- what was printed.
pub read_elf-refuses :
    (file : File) (s : Loader)
    → is_readable file ≡ false
    → (log : List Message) × (read_elf file s ≡ some (minus_one, record s { log = log }))
unfolding read_elf
read_elf-refuses file s refused =
    let said : Message → List Message = λ m. s.log ++ (m ∷ []) in
    elim (Bool-cases file.opens) [
      | inr e ↦ (said not_opened, rw e refl)
      | inl e₁ ↦ elim (Bool-cases file.stats) [
        | inr e ↦ (said no_stats, rw (e₁, e) refl)
        | inl e₂ ↦ elim (Bool-cases (ltb file.size 64)) [
          | inl e ↦ (said too_small, rw (e₁, e₂, e) refl)
          | inr e₃ ↦ elim (Bool-cases file.maps) [
            | inr e ↦ (said not_mapped, rw (e₁, e₂, e₃, e) refl)
            | inl e₄ ↦
                let unsigned : (is_elf32 file.image || is_elf64 file.image) ≡ false =
                  ground arith in
                (said mapped ++ (no_signature ∷ []), rw (e₁, e₂, e₃, e₄, unsigned) refl)
          ]
        ]
      ]
    ]

-- A file that begins like an ELF file, but that ends before its program headers do, is no error: the
-- loader returns 0 and has loaded nothing.
pub read_elf-truncated :
    (file : File) (s : Loader)
    → is_readable file ≡ true
    → let head = eh (layout_of file.image) file.image file.size in
      file.size < u64 (head.e_phoff + head.e_phnum * (layout_of file.image).phdr_size)
      → (log : List Message) × (read_elf file s ≡ some (0, record s { log = log }))
unfolding load_elf
read_elf-truncated file s readable short =
    let head : Ehdr = eh (layout_of file.image) file.image file.size in
    let test : ltb file.size (u64 (head.e_phoff + head.e_phnum * (layout_of file.image).phdr_size))
        ≡ true =
      ground arith in
    (
      s.log ++ (mapped ∷ []) ++ (small_program_headers ∷ []),
      read_elf-load_elf file s readable ∙ rw test refl,
    )
