-- ===== src/Elf/Calls.antt =====
-- Any sequence of calls of the loader of target/sim/src/elfloader.cpp by the testbench.
use mathlib.Core.Path.{subst}
use cheshire_can.Prelude.{ℕ, ◌≡◌, some, arith}
use cheshire_can.Machine.Store.{Memory}
use cheshire_can.Elf.Loader.{Loader, fresh, get_section, read_section}
use cheshire_can.Elf.Load.{File, read_elf, read_elf_stream}
use cheshire_can.Elf.Keeps.{
  IsConsistent, Returns, read_elf-Returns, read_elf_stream-Returns, get_section-IsConsistent,
  read_section-IsConsistent,
}

-- One call, with whatever arguments and whatever the file holds.
pub data Step (s : Loader) : Loader → Type 0 where
  read : (file : File) (code : ℕ) {t : Loader} → read_elf file s ≡ some (code, t) → Step s t
  stream :
      (file : File) (code : ℕ) {t : Loader} → read_elf_stream file s ≡ some (code, t) → Step s t
  next : Step s (get_section s).1
  fetch : (address buf len : ℕ) (target : Memory) → Step s (read_section address buf len target s).2

pub data Reach (s : Loader) : Loader → Type 0 where
  here : Reach s s
  more : {t u : Loader} → Reach s t → Step t u → Reach s u

Step-IsConsistent : {s t : Loader} → Step s t → IsConsistent s → IsConsistent t
Step-IsConsistent {s} (read file code e) h = subst Returns e (read_elf-Returns file s h)
Step-IsConsistent {s} (stream file code e) h = subst Returns e (read_elf_stream-Returns file s h)
Step-IsConsistent {s} next h = get_section-IsConsistent s h
Step-IsConsistent {s} (fetch address buf len target) h =
    read_section-IsConsistent address buf len target s h

-- After any sequence of calls, the iterator is not behind the last section, and every section that the
-- loader tells of has its content.
pub Reach-IsConsistent : {s : Loader} → Reach fresh s → IsConsistent s
Reach-IsConsistent here = record { present = tt; index = omega arith }
Reach-IsConsistent (more r step) = Step-IsConsistent step (Reach-IsConsistent r)
