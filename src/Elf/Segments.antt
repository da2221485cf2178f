-- ===== src/Elf/Segments.antt =====
-- What `load_elf` of target/sim/src/elfloader.cpp takes from a file: its segments, in order.
use mathlib.Core.Path.{subst}
use mathlib.Core.List.{append-nil, append_assoc}
use cheshire_can.Prelude.{
  ℕ, zero, suc, ◌+◌, ◌≤◌, ◌≡◌, refl, sym, ap, ◌∙◌, inl, inr, Bool, true, false, ◌&&◌, Option, none,
  some, List, [], ◌∷◌, ◌++◌, arith, ◌==◌, ◌!=◌, ltb, leb, length, ◌<◌, ◌^◌, if◌then◌else◌,
  Bool-cases, ==_iff, All,
}
use cheshire_can.Machine.Store.{Memory, Bytes, length-load_bytes}
use cheshire_can.Elf.{Phdr, Layout}
use cheshire_can.Elf.Loader.{Section, Loader, lookup, insert}
use cheshire_can.Elf.Load.{
  ph, field_sum, is_loadable, content_of, preload, warn_zeros, take_segment, load_segments,
}
use cheshire_can.Elf.Keeps.{Option-cases}

abbrev pub section_of : Phdr → Section
section_of p = record { address = p.p_paddr; size = p.p_memsz }

abbrev pub sections_of : List Phdr → List Section
sections_of [] = []
sections_of (p ∷ ps) = section_of p ∷ sections_of ps

abbrev pub or_else : Option Bytes → Option Bytes → Option Bytes
or_else none d = d
or_else (some c) d = some c

or_else_assoc : (a b c : Option Bytes) → or_else (or_else a b) c ≡ or_else a (or_else b c)
or_else_assoc none b c = refl
or_else_assoc (some x) b c = refl

or_else-none : (a : Option Bytes) → or_else a none ≡ a
or_else-none none = refl
or_else-none (some x) = refl

-- An insertion is seen where nothing was.
lookup-insert :
    (a b : ℕ) (c : Bytes) (mems : List (ℕ × Bytes))
    → lookup a (insert b c mems) ≡ or_else (lookup a mems) (if b == a then some c else none)
unfolding insert lookup
lookup-insert a b c mems = elim (Bool-cases (b == a)) [
  | inl e ↦
      let same : b ≡ a = (==_iff b a).0 e in
      elim (Option-cases (lookup b mems)) [
        | inl absent ↦
            let here : lookup a mems ≡ none = rw (← same) absent in rw (absent, here, e) refl
        | inr (old, there) ↦
            let here : lookup a mems ≡ some old = rw (← same) there in rw (there, here) refl
      ]
  | inr e ↦ elim (Option-cases (lookup b mems)) [
    | inl absent ↦ rw (absent, e) (sym (or_else-none (lookup a mems)))
    | inr (old, there) ↦ rw (there, e) (sym (or_else-none (lookup a mems)))
  ]
]

module _ (layout : Layout) (image : Memory) (size : ℕ) where
  abbrev pub is_wanted_segment : Phdr → Bool
  is_wanted_segment p = is_loadable layout image size p && p.p_filesz != 0

  -- The loadable segments of the table from entry `i` on that have bytes in the file.
  unfoldable pub segments : ℕ → ℕ → List Phdr
  segments zero i = []
  segments (suc left) i =
      let rest = segments left (i + 1) in
      if is_wanted_segment (ph layout image size i) then ph layout image size i ∷ rest else rest

  -- The bytes in the file of the first of them at an address.
  unfoldable pub first_at : ℕ → List Phdr → Option Bytes
  first_at a [] = none
  first_at a (p ∷ ps) =
      let rest = first_at a ps in
      if p.p_paddr == a then some (content_of layout image size p) else rest

  abbrev pub Fits : Phdr → Type 0
  Fits p = (field_sum layout image size p.p_offset p.p_filesz ≤ size) × (p.p_filesz < 2 ^ 31)

  -- The state after these were taken, but for what is printed.
  pub record Took (ps : List Phdr) (s t : Loader) : Type 0 where
    pub sections : t.sections ≡ s.sections ++ sections_of ps
    pub mems : (a : ℕ) → lookup a t.mems ≡ or_else (lookup a s.mems) (first_at a ps)
    pub entry : t.entry ≡ s.entry
    pub index : t.section_index ≡ s.section_index

  Took-none : (s : Loader) → Took [] s s
  unfolding first_at
  Took-none s = record {
    sections = sym (append-nil s.sections);
    mems = λ a. sym (or_else-none (lookup a s.mems));
    entry = refl;
    index = refl;
  }

  first_at_cons :
      (a : ℕ) (p : Phdr) (ps : List Phdr)
      → or_else (first_at a (p ∷ [])) (first_at a ps) ≡ first_at a (p ∷ ps)
  unfolding first_at
  first_at_cons a p ps = elim (Bool-cases (p.p_paddr == a)) [
    | inl e ↦ rw e refl
    | inr e ↦ rw e refl
  ]

  Took-cons :
      (p : Phdr) (ps : List Phdr) (s t u : Loader)
      → Took (p ∷ []) s t
      → Took ps t u
      → Took (p ∷ ps) s u
  unfolding first_at
  Took-cons p ps s t u first rest = record {
    sections =
        rest.sections
        ∙ ap (λ x. x ++ sections_of ps) first.sections
        ∙ append_assoc s.sections (section_of p ∷ []) (sections_of ps);
    mems = λ a.
        rest.mems a
        ∙ ap (λ x. or_else x (first_at a ps)) (first.mems a)
        ∙ or_else_assoc (lookup a s.mems) (first_at a (p ∷ [])) (first_at a ps)
        ∙ ap (or_else (lookup a s.mems)) (first_at_cons a p ps);
    entry = rest.entry ∙ first.entry;
    index = rest.index ∙ first.index;
  }

  preload_lem :
      (p : Phdr) (s : Loader)
      → is_wanted_segment p ≡ true
      → Fits p
      → (t : Loader) × (preload layout image size p s ≡ some t) × Took (p ∷ []) s t
  unfolding first_at
  preload_lem p s wanted fits =
      let has : (p.p_filesz == 0) ≡ false = ground arith in
      let inside : leb (field_sum layout image size p.p_offset p.p_filesz) size ≡ true =
        ground arith in
      let content : Bytes = content_of layout image size p in
      let short : ltb (length content) (2 ^ 31) ≡ true =
        ground (arith, length-load_bytes p.p_offset p.p_filesz image) in
      (
        record s {
          sections = s.sections ++ (section_of p ∷ []);
          mems = insert p.p_paddr content s.mems;
        },
        rw (has, inside, short) refl,
        record {
          sections = refl;
          mems = λ a. lookup-insert a p.p_paddr (content_of layout image size p) s.mems;
          entry = refl;
          index = refl;
        },
      )

  warn_zeros-Took :
      (p : Phdr) (ps : List Phdr) (s t : Loader)
      → Took ps s t
      → Took ps s (warn_zeros layout image size p t)
  warn_zeros-Took p ps s t took = elim (Bool-cases (ltb p.p_filesz p.p_memsz)) [
    | inl e ↦ rw e (record {
      sections = took.sections;
      mems = took.mems;
      entry = took.entry;
      index = took.index;
    })
    | inr e ↦ rw e took
  ]

  take_segment-Took :
      (p : Phdr) (s : Loader)
      → is_wanted_segment p ≡ true
      → Fits p
      → (t : Loader) × (take_segment layout image size p s ≡ some t) × Took (p ∷ []) s t
  unfolding take_segment
  take_segment-Took p s wanted fits =
      let (t, taken, took) = preload_lem p s wanted fits in
      let loads : is_loadable layout image size p ≡ true = ground arith in
      (warn_zeros layout image size p t, rw (loads, taken) refl, warn_zeros-Took p _ s t took)

  take_segment-skips :
      (p : Phdr) (s : Loader)
      → is_wanted_segment p ≡ false
      → (t : Loader) × (take_segment layout image size p s ≡ some t) × Took [] s t
  unfolding take_segment
  take_segment-skips p s skipped = elim (Bool-cases (is_loadable layout image size p)) [
    | inl loads ↦
        let none_there : (p.p_filesz == 0) ≡ true = ground arith in
        (
          warn_zeros layout image size p s,
          rw (loads, none_there) refl,
          warn_zeros-Took p [] s s (Took-none s),
        )
    | inr other ↦ (s, rw other refl, Took-none s)
  ]

  Took-after_none : (ps : List Phdr) (s t u : Loader) → Took [] s t → Took ps t u → Took ps s u
  unfolding first_at
  Took-after_none ps s t u first rest = record {
    sections =
        rest.sections ∙ ap (λ x. x ++ sections_of ps) (first.sections ∙ append-nil s.sections);
    mems = λ a.
        rest.mems a
        ∙ ap (λ x. or_else x (first_at a ps)) (first.mems a ∙ or_else-none (lookup a s.mems));
    entry = rest.entry ∙ first.entry;
    index = rest.index ∙ first.index;
  }

  segments-wanted :
      (left i : ℕ)
      → is_wanted_segment (ph layout image size i) ≡ true
      → segments (suc left) i ≡ ph layout image size i ∷ segments left (i + 1)
  unfolding segments
  segments-wanted left i e = rw e refl

  segments-skipped :
      (left i : ℕ)
      → is_wanted_segment (ph layout image size i) ≡ false
      → segments (suc left) i ≡ segments left (i + 1)
  unfolding segments
  segments-skipped left i e = rw e refl

  -- The loop takes the segments that it is to take, if they fit the file.
  pub load_segments-Took :
      (left i : ℕ) (s : Loader)
      → All Fits (segments left i)
      → (t : Loader) × (load_segments layout image size left i s ≡ some t)
        × Took (segments left i) s t
  unfolding load_segments segments
  load_segments-Took zero i s fits = (s, refl, Took-none s)
  load_segments-Took (suc left) i s fits =
      elim (Bool-cases (is_wanted_segment (ph layout image size i))) [
        | inl wanted ↦
            let p : Phdr = ph layout image size i in
            let both : Fits p × All Fits (segments left (i + 1)) =
              subst (All Fits) (segments-wanted left i wanted) fits in
            let (t, taken, first) = take_segment-Took p s wanted both.0 in
            let (u, loaded, rest) = load_segments-Took left (i + 1) t both.1 in
            rw (wanted, taken, loaded)
              (u, refl, Took-cons p (segments left (i + 1)) s t u first rest)
        | inr skipped ↦
            let p : Phdr = ph layout image size i in
            let all : All Fits (segments left (i + 1)) =
              subst (All Fits) (segments-skipped left i skipped) fits in
            let (t, taken, first) = take_segment-skips p s skipped in
            let (u, loaded, rest) = load_segments-Took left (i + 1) t all in
            rw (skipped, taken, loaded)
              (u, refl, Took-after_none (segments left (i + 1)) s t u first rest)
      ]
