-- ===== src/Elf.antt =====
-- The loader of the simulation, target/sim/src/elfloader.cpp: the headers of an ELF file, which the
-- simulated testbench asks for its sections. The templates' types are the two values of `Layout`.
pub mod Loader
pub mod Load
pub mod Keeps
pub mod Calls
pub mod Segments
pub mod Read
pub mod Sections
pub mod Inside
mod Tests
use cheshire_can.Prelude.{ℕ, ◌+◌, ◌*◌, ◌^◌, Bool, ◌&&◌, ◌==◌}
use cheshire_can.Word.{le_value}
use cheshire_can.Machine.Store.{Memory, load_bytes}

-- `Elf32_Ehdr` and `Elf64_Ehdr`
pub record Ehdr : Type 0 where
  pub e_type : ℕ
  pub e_machine : ℕ
  pub e_version : ℕ
  pub e_entry : ℕ
  pub e_phoff : ℕ
  pub e_shoff : ℕ
  pub e_flags : ℕ
  pub e_ehsize : ℕ
  pub e_phentsize : ℕ
  pub e_phnum : ℕ
  pub e_shentsize : ℕ
  pub e_shnum : ℕ
  pub e_shstrndx : ℕ

-- `Elf32_Shdr` and `Elf64_Shdr`
pub record Shdr : Type 0 where
  pub sh_name : ℕ
  pub sh_type : ℕ
  pub sh_flags : ℕ
  pub sh_addr : ℕ
  pub sh_offset : ℕ
  pub sh_size : ℕ
  pub sh_link : ℕ
  pub sh_info : ℕ
  pub sh_addralign : ℕ
  pub sh_entsize : ℕ

-- `Elf32_Phdr` and `Elf64_Phdr`
pub record Phdr : Type 0 where
  pub p_type : ℕ
  pub p_offset : ℕ
  pub p_vaddr : ℕ
  pub p_paddr : ℕ
  pub p_filesz : ℕ
  pub p_memsz : ℕ
  pub p_flags : ℕ
  pub p_align : ℕ

-- A field of so many bytes, in the byte order of the host.
abbrev pub field : Memory → ℕ → ℕ → ℕ
field image at n = le_value (load_bytes at n image)

unfoldable pub ehdr32 : Memory → ℕ → Ehdr
ehdr32 image at = record {
  e_type = field image (at + 16) 2;
  e_machine = field image (at + 18) 2;
  e_version = field image (at + 20) 4;
  e_entry = field image (at + 24) 4;
  e_phoff = field image (at + 28) 4;
  e_shoff = field image (at + 32) 4;
  e_flags = field image (at + 36) 4;
  e_ehsize = field image (at + 40) 2;
  e_phentsize = field image (at + 42) 2;
  e_phnum = field image (at + 44) 2;
  e_shentsize = field image (at + 46) 2;
  e_shnum = field image (at + 48) 2;
  e_shstrndx = field image (at + 50) 2;
}

unfoldable pub ehdr64 : Memory → ℕ → Ehdr
ehdr64 image at = record {
  e_type = field image (at + 16) 2;
  e_machine = field image (at + 18) 2;
  e_version = field image (at + 20) 4;
  e_entry = field image (at + 24) 8;
  e_phoff = field image (at + 32) 8;
  e_shoff = field image (at + 40) 8;
  e_flags = field image (at + 48) 4;
  e_ehsize = field image (at + 52) 2;
  e_phentsize = field image (at + 54) 2;
  e_phnum = field image (at + 56) 2;
  e_shentsize = field image (at + 58) 2;
  e_shnum = field image (at + 60) 2;
  e_shstrndx = field image (at + 62) 2;
}

unfoldable pub shdr32 : Memory → ℕ → Shdr
shdr32 image at = record {
  sh_name = field image at 4;
  sh_type = field image (at + 4) 4;
  sh_flags = field image (at + 8) 4;
  sh_addr = field image (at + 12) 4;
  sh_offset = field image (at + 16) 4;
  sh_size = field image (at + 20) 4;
  sh_link = field image (at + 24) 4;
  sh_info = field image (at + 28) 4;
  sh_addralign = field image (at + 32) 4;
  sh_entsize = field image (at + 36) 4;
}

unfoldable pub shdr64 : Memory → ℕ → Shdr
shdr64 image at = record {
  sh_name = field image at 4;
  sh_type = field image (at + 4) 4;
  sh_flags = field image (at + 8) 8;
  sh_addr = field image (at + 16) 8;
  sh_offset = field image (at + 24) 8;
  sh_size = field image (at + 32) 8;
  sh_link = field image (at + 40) 4;
  sh_info = field image (at + 44) 4;
  sh_addralign = field image (at + 48) 8;
  sh_entsize = field image (at + 56) 8;
}

unfoldable pub phdr32 : Memory → ℕ → Phdr
phdr32 image at = record {
  p_type = field image at 4;
  p_offset = field image (at + 4) 4;
  p_vaddr = field image (at + 8) 4;
  p_paddr = field image (at + 12) 4;
  p_filesz = field image (at + 16) 4;
  p_memsz = field image (at + 20) 4;
  p_flags = field image (at + 24) 4;
  p_align = field image (at + 28) 4;
}

unfoldable pub phdr64 : Memory → ℕ → Phdr
phdr64 image at = record {
  p_type = field image at 4;
  p_flags = field image (at + 4) 4;
  p_offset = field image (at + 8) 8;
  p_vaddr = field image (at + 16) 8;
  p_paddr = field image (at + 24) 8;
  p_filesz = field image (at + 32) 8;
  p_memsz = field image (at + 40) 8;
  p_align = field image (at + 48) 8;
}

-- The types that `load_elf` is instantiated with, and the width of their offsets and sizes.
pub record Layout : Type 0 where
  pub ehdr_at : Memory → ℕ → Ehdr
  pub phdr_at : Memory → ℕ → Phdr
  pub shdr_at : Memory → ℕ → Shdr
  pub phdr_size : ℕ
  pub shdr_size : ℕ
  pub width : ℕ

abbrev pub layout32 : Layout
layout32 = record {
  ehdr_at = ehdr32;
  phdr_at = phdr32;
  shdr_at = shdr32;
  phdr_size = 32;
  shdr_size = 40;
  width = 32;
}

abbrev pub layout64 : Layout
layout64 = record {
  ehdr_at = ehdr64;
  phdr_at = phdr64;
  shdr_at = shdr64;
  phdr_size = 56;
  shdr_size = 64;
  width = 64;
}

-- `IS_ELF`, `IS_ELF32` and `IS_ELF64`
abbrev pub is_elf : Memory → Bool
is_elf image = image 0 == 0x7f && image 1 == 0x45 && image 2 == 0x4c && image 3 == 0x46

abbrev pub is_elf32 : Memory → Bool
is_elf32 image = is_elf image && image 4 == 1

abbrev pub is_elf64 : Memory → Bool
is_elf64 image = is_elf image && image 4 == 2
