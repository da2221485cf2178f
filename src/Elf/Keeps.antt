-- ===== src/Elf/Keeps.antt =====
-- Every function of the loader of target/sim/src/elfloader.cpp leaves a consistent state.
use cheshire_can.Prelude.{
  ℕ, zero, suc, ◌+◌, ◌*◌, ◌^◌, ◌≤◌, ◌≡◌, refl, ◌⊎◌, inl, inr, Bool, true, false, not, ◌||◌, Option,
  none, some, List, [], ◌∷◌, ◌++◌, arith, ◌==◌, ltb, leb, if◌then◌else◌, Bool-cases, length,
  length-append, All,
}
use cheshire_can.Word.{u64}
use cheshire_can.Machine.Store.{Memory, Bytes}
use cheshire_can.Elf.{Ehdr, Shdr, Phdr, Layout, layout32, layout64, is_elf32, is_elf64}
use cheshire_can.Elf.Loader.{
  minus_one, Message, small_section_headers, names_out_of_bounds, small_names,
  small_program_headers, not_opened, no_stats, too_small, stream_not_opened, stream_too_small,
  not_mapped, not_read, mapped, no_signature, entrypoint, Section, Loader, say, lookup, insert,
  get_section, copied_code, copy_section, read_section, is_named, strtab, symtab, string_table,
  symbol_table,
}
use cheshire_can.Elf.Load.{
  eh, ph, is_loadable, content_of, field_sum, preload, if_loaded, take_segment, load_segments, sh,
  tell_table, find_tables, check_sections, load_elf, File, returned, load_signed, read_elf,
  read_elf_stream,
}

abbrev pub IsPresent : List (ℕ × Bytes) → ℕ → Type 0
IsPresent mems address = (content : Bytes) × (lookup address mems ≡ some content)

-- Every section has its content, and the iterator is not behind the last one.
pub record IsConsistent (s : Loader) : Type 0 where
  pub present : All (λ (t : Section). IsPresent s.mems t.address) s.sections
  pub index : s.section_index ≤ length s.sections

pub Option-cases : {A : Type 0} (o : Option A) → (o ≡ none) ⊎ ((x : A) × (o ≡ some x))
Option-cases none = inl refl
Option-cases (some x) = inr (x, refl)

pub lookup-insert_self :
    (a : ℕ) (c : Bytes) (mems : List (ℕ × Bytes)) → IsPresent (insert a c mems) a
unfolding insert lookup
lookup-insert_self a c mems = elim (Option-cases (lookup a mems)) [
  | inl e ↦ rw e (c, ground arith)
  | inr (old, e) ↦ rw e (old, e)
]

pub insert-IsPresent :
    (a b : ℕ) (c : Bytes) (mems : List (ℕ × Bytes))
    → IsPresent mems a
    → IsPresent (insert b c mems) a
unfolding insert lookup
insert-IsPresent a b c mems (found, h) = elim (Option-cases (lookup b mems)) [
  | inr (old, e) ↦ rw e (found, h)
  | inl e ↦ rw e (elim (Bool-cases (b == a)) [
    | inl same ↦ (c, rw same refl)
    | inr other ↦ (found, rw other h)
  ])
]

insert-All :
    (b : ℕ) (c : Bytes) (mems : List (ℕ × Bytes)) (sections : List Section)
    → All (λ (t : Section). IsPresent mems t.address) sections
    → All (λ (t : Section). IsPresent (insert b c mems) t.address) sections
insert-All b c mems [] all = tt
insert-All b c mems (t ∷ sections) all =
    (insert-IsPresent t.address b c mems all.0, insert-All b c mems sections all.1)

All-snoc :
    (P : Section → Type 0) (xs : List Section) (x : Section)
    → All P xs
    → P x
    → All P (xs ++ (x ∷ []))
All-snoc P [] x all h = (h, tt)
All-snoc P (y ∷ xs) x all h = (all.0, All-snoc P xs x all.1 h)

-- What a call that may end the simulation keeps if it does not.
abbrev Keeps : Option Loader → Type 0
Keeps none = Unit
Keeps (some s) = IsConsistent s

say-IsConsistent : (s : Loader) (m : Message) → IsConsistent s → IsConsistent (say m s)
say-IsConsistent s m h = record { present = h.present; index = h.index }

-- Both branches of a test.
if-Keeps : (b : Bool) (o p : Option Loader) → Keeps o → Keeps p → Keeps (if b then o else p)
if-Keeps true o p ho hp = ho
if-Keeps false o p ho hp = hp

if-IsConsistent :
    (b : Bool) (s t : Loader) → IsConsistent s → IsConsistent t → IsConsistent (if b then s else t)
if-IsConsistent true s t hs ht = hs
if-IsConsistent false s t hs ht = ht

module _ (layout : Layout) (image : Memory) (size : ℕ) where
  if_loaded-Keeps :
      (o : Option Loader) (k : Loader → Option Loader)
      → Keeps o
      → ((s : Loader) → IsConsistent s → Keeps (k s))
      → Keeps (if_loaded layout image size o k)
  if_loaded-Keeps none k h rest = tt
  if_loaded-Keeps (some s) k h rest = rest s h

  preload-Keeps : (p : Phdr) (s : Loader) → IsConsistent s → Keeps (preload layout image size p s)
  preload-Keeps p s h = if-Keeps (p.p_filesz == 0) _ _ h (
      if-Keeps (leb (field_sum layout image size p.p_offset p.p_filesz) size) _ _
        (if-Keeps (ltb (length (content_of layout image size p)) (2 ^ 31)) _ _
          (record {
            present =
                All-snoc _ s.sections _ (insert-All p.p_paddr _ s.mems s.sections h.present)
                  (lookup-insert_self p.p_paddr _ s.mems);
            index = omega (
              arith,
              h.index,
              length-append s.sections (record { address = p.p_paddr; size = p.p_memsz } ∷ []),
            );
          })
          tt)
        tt)

  take_segment-Keeps :
      (p : Phdr) (s : Loader) → IsConsistent s → Keeps (take_segment layout image size p s)
  unfolding take_segment
  take_segment-Keeps p s h =
      if-Keeps (is_loadable layout image size p) _ _
        (if_loaded-Keeps _ _ (preload-Keeps p s h)
          λ t k. if-IsConsistent (ltb p.p_filesz p.p_memsz) _ _ (say-IsConsistent t _ k) k)
        h

  load_segments-Keeps :
      (left i : ℕ) (s : Loader) → IsConsistent s → Keeps (load_segments layout image size left i s)
  unfolding load_segments
  load_segments-Keeps zero i s h = h
  load_segments-Keeps (suc left) i s h =
      if_loaded-Keeps _ _ (take_segment-Keeps (ph layout image size i) s h)
        (load_segments-Keeps left (i + 1))

  tell_table-IsConsistent :
      (i : ℕ) (s : Loader) → IsConsistent s → IsConsistent (tell_table layout image size i s)
  tell_table-IsConsistent i s h =
      let said : (m : Message) → IsConsistent (say m s) = λ m. say-IsConsistent s m h in
      let offset : ℕ = (sh layout image size i).sh_offset in
      let names : Shdr = sh layout image size (eh layout image size).e_shstrndx in
      let name : ℕ = u64 (names.sh_offset + (sh layout image size i).sh_name) in
      if-IsConsistent (is_named image name strtab) (say (string_table offset) s) _ (said _)
        (if-IsConsistent (is_named image name symtab) (say (symbol_table offset) s) s (said _) h)

  find_tables-IsConsistent :
      (left i : ℕ) (s : Loader)
      → IsConsistent s
      → IsConsistent (find_tables layout image size left i s)
  unfolding find_tables
  find_tables-IsConsistent zero i s h = h
  find_tables-IsConsistent (suc left) i s h =
      find_tables-IsConsistent left (i + 1) (tell_table layout image size i s)
        (tell_table-IsConsistent i s h)

  check_sections-IsConsistent :
      (s : Loader) → IsConsistent s → IsConsistent (check_sections layout image size s)
  check_sections-IsConsistent s h =
      let said : (m : Message) → IsConsistent (say m s) = λ m. say-IsConsistent s m h in
      let found : IsConsistent (find_tables layout image size (eh layout image size).e_shnum 0 s) =
        find_tables-IsConsistent _ 0 s h in
      ground (arith, said small_section_headers, said names_out_of_bounds, said small_names, found)

  load_elf-Keeps : (s : Loader) → IsConsistent s → Keeps (load_elf layout image size s)
  unfolding load_elf
  load_elf-Keeps s h =
      let started : IsConsistent (
          say (entrypoint (eh layout image size).e_entry)
            (record s { entry = (eh layout image size).e_entry })) =
        record { present = h.present; index = h.index } in
      let head : Ehdr = eh layout image size in
      if-Keeps (ltb size (u64 (head.e_phoff + head.e_phnum * layout.phdr_size)))
        (some (say small_program_headers s)) _ (say-IsConsistent s _ h)
        (if_loaded-Keeps _ (λ t. some (check_sections layout image size t))
          (load_segments-Keeps head.e_phnum 0 _ started) check_sections-IsConsistent)

-- The same of a call that returns a code.
abbrev pub Returns : Option (ℕ × Loader) → Type 0
Returns none = Unit
Returns (some (code, s)) = IsConsistent s

if-Returns :
    (b : Bool) (o p : Option (ℕ × Loader)) → Returns o → Returns p → Returns (if b then o else p)
if-Returns true o p ho hp = ho
if-Returns false o p ho hp = hp

returned-Returns : (code : ℕ) (o : Option Loader) → Keeps o → Returns (returned code o)
returned-Returns code none h = tt
returned-Returns code (some s) h = h

load_signed-Returns :
    (image : Memory) (size : ℕ) (s : Loader) → IsConsistent s → Returns (load_signed image size s)
load_signed-Returns image size s h =
    if-Returns (not (is_elf32 image || is_elf64 image)) (some (minus_one, say no_signature s)) _
      (say-IsConsistent s _ h)
      (returned-Returns 0 _ (
        if-Keeps (is_elf32 image) _ _ (load_elf-Keeps layout32 image size s h)
          (load_elf-Keeps layout64 image size s h)))

pub read_elf-Returns : (file : File) (s : Loader) → IsConsistent s → Returns (read_elf file s)
unfolding read_elf
read_elf-Returns file s h =
    let said : (m : Message) → IsConsistent (say m s) = λ m. say-IsConsistent s m h in
    if-Returns (not file.opens) (some (minus_one, say not_opened s)) _ (said _) (
      if-Returns (not file.stats) (some (minus_one, say no_stats s)) _ (said _) (
        if-Returns (ltb file.size 64) (some (minus_one, say too_small s)) _ (said _) (
          if-Returns (not file.maps) (some (minus_one, say not_mapped s)) _ (said _)
            (load_signed-Returns file.image file.size (say mapped s) (said _)))))

pub read_elf_stream-Returns :
    (file : File) (s : Loader) → IsConsistent s → Returns (read_elf_stream file s)
unfolding read_elf_stream
read_elf_stream-Returns file s h =
    let said : (m : Message) → IsConsistent (say m s) = λ m. say-IsConsistent s m h in
    if-Returns (not file.opens) (some (minus_one, say stream_not_opened s)) _ (said _) (
      if-Returns (not file.reads) (some (minus_one, say not_read s)) _ (said _) (
        if-Returns (ltb file.size 64) (some (minus_one, say stream_too_small s)) _ (said _)
          (load_signed-Returns file.image file.size s h)))

pub get_section-IsConsistent : (s : Loader) → IsConsistent s → IsConsistent (get_section s).1
unfolding get_section
get_section-IsConsistent s h = elim (Bool-cases (ltb s.section_index (length s.sections))) [
  | inl e ↦ rw e (record { present = h.present; index = ground arith })
  | inr e ↦ rw e h
]

copied_code-IsConsistent :
    (len : ℕ) (done : Bool) (s : Loader) → IsConsistent s → IsConsistent (copied_code len done s).1
copied_code-IsConsistent len true s h = h
copied_code-IsConsistent len false s h = say-IsConsistent s _ h

pub read_section-IsConsistent :
    (address buf len : ℕ) (target : Memory) (s : Loader)
    → IsConsistent s
    → IsConsistent (read_section address buf len target s).2
unfolding read_section
read_section-IsConsistent address buf len target s h = elim (Option-cases (lookup address s.mems)) [
  | inl e ↦ rw e (say-IsConsistent s _ h)
  | inr (content, e) ↦
      rw e (copied_code-IsConsistent len (copy_section len content buf target).0 s h)
]
