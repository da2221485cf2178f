-- ===== src/Flash/Program.antt =====
-- Flashing: what the chip is told, command by command.
use mathlib.Core.List.{append_assoc, append-nil}
use cheshire_can.Prelude.{
  ℕ, zero, suc, ◌+◌, ◌*◌, ◌≤◌, ◌<◌, true, false, List, [], ◌∷◌, ◌++◌, ◌≡◌, refl, ap, ◌∙◌, inl, inr,
  arith, ltb, leb, if◌then◌else◌, Bool-cases,
}
use cheshire_can.Word.{u32, u64, ◌<<<◌}
use cheshire_can.Machine.{State, when}
use cheshire_can.Machine.Store.{Memory, load_bytes}
use cheshire_can.Machine.Yields.{Yields, yields, bind}
use cheshire_can.Spi.{Dif, Segment, opcode, address, tx, rx}
use cheshire_can.Flash.{
  Flash, issue, poll_wip, set_wen, write_and_wait, erase_small_loop, program_loop,
  single_flash_sector, sector_loop, single_flash, erases_small, small_sectors,
}
use cheshire_can.Flash.Link.{Link, is_command, read_status}
use cheshire_can.Flash.Log.{
  Commands, enabled, erase_small_log, pages_log, sector_log, sectors_log, mode_log,
}

module _ {W : Type 0} {dif : Dif W} (flash : Flash) {chip : ℕ → ℕ} {patience : ℕ}
    (link : Link dif flash.csid chip patience) where
  -- Where a run stands: what the chip was told, how busy it may be, and the memory.
  pub record Told (log : Commands) (m : Memory) (s : State W) : Type 0 where
    pub logged : link.log s.world ≡ log
    pub memory : s.mem ≡ m

  pub record Waits (log : Commands) (m : Memory) (s : State W) : Type 0 where
    pub told : Told log m s
    pub bounded : link.busy s.world < patience

  issue_lem :
      (segments : List Segment) {log : Commands} {m : Memory} {s : State W}
      → is_command segments ≡ true
      → Told log m s
      → Yields (Waits (log ++ segments ∷ []) m) tt (issue dif flash segments s)
  issue_lem segments {log} {m} {s} c told =
      let (bytes, w', runs, logged, quiet) = link.command_runs s.world segments c in
      rw runs (
        yields tt (record s { world = w' })
          (record {
            told = record {
              logged = logged ∙ ap (λ l. l ++ segments ∷ []) told.logged;
              memory = told.memory;
            };
            bounded = quiet;
          }))

  poll_wip_lem :
      (rounds : ℕ) {log : Commands} {m : Memory} {s : State W}
      → link.busy s.world < rounds
      → Told log m s
      → Yields (Told (log ++ read_status ∷ []) m) tt (poll_wip dif flash rounds s)
  unfolding poll_wip
  poll_wip_lem zero bound told = elim bound [ ]
  poll_wip_lem (suc rounds) {log} {m} {s} bound told =
      let (status, w', runs, bit, errors, logged, less) = link.status_runs s.world in
      elim (Bool-cases (leb 1 (link.busy s.world))) [
        | inl still ↦
            let same : link.log w' ≡ log =
              logged ∙ rw still (append-nil (link.log s.world) ∙ told.logged) in
            rw (runs, bit, still)
              (poll_wip_lem rounds (ground arith) (record { logged = same; memory = told.memory }))
        | inr idle ↦
            let found : link.log w' ≡ log ++ read_status ∷ [] =
              logged ∙ rw idle (ap (λ l. l ++ read_status ∷ []) told.logged) in
            rw (runs, bit, idle, errors)
              (yields tt _ (record { logged = found; memory = told.memory }))
      ]

  set_wen_lem :
      {log : Commands} {m : Memory} {s : State W}
      → Told log m s
      → Yields (Waits (log ++ (opcode 0x06 ∷ []) ∷ []) m) tt (set_wen dif flash s)
  unfolding set_wen
  set_wen_lem told = issue_lem (opcode 0x06 ∷ []) refl told

  write_lem :
      (rounds : ℕ) (segments : List Segment) {log : Commands} {m : Memory} {s : State W}
      → patience ≤ rounds
      → is_command segments ≡ true
      → Told log m s
      → Yields (Told (log ++ enabled segments) m) tt (write_and_wait dif flash rounds segments s)
  unfolding write_and_wait
  write_lem rounds segments {log} enough c told =
      rw
        (
          ← append_assoc log ((opcode 0x06 ∷ []) ∷ segments ∷ []) (read_status ∷ []),
          ← append_assoc log ((opcode 0x06 ∷ []) ∷ []) (segments ∷ []),
        )
        (bind _ (bind _ (set_wen_lem told) λ s w. issue_lem segments c w.told)
          λ s w. poll_wip_lem rounds (let b = w.bounded in omega arith) w.told)

  erase_small_lem :
      (rounds addr left i : ℕ) {log : Commands} {m : Memory} {s : State W}
      → patience ≤ rounds
      → Told log m s
      → Yields
          (Told (log ++ erase_small_log addr left i) m)
          tt
          (erase_small_loop dif flash rounds addr left i s)
  unfolding erase_small_loop
  erase_small_lem rounds addr zero i {log} {s = s} enough told =
      rw (append-nil log) (yields tt s told)
  erase_small_lem rounds addr (suc left) i {log} enough told =
      let segments : List Segment = opcode 0x21 ∷ address (u32 (addr + (i <<< 12))) ∷ [] in
      rw (← append_assoc log (enabled segments) (erase_small_log addr left (i + 1))) (
        bind _ (write_lem rounds segments enough refl told)
          λ s told. erase_small_lem rounds addr left (i + 1) enough told)

  program_lem :
      (rounds buf sector_addr size fuel pages p : ℕ) {log : Commands} {m : Memory} {s : State W}
      → patience ≤ rounds
      → p + 256 * pages ≡ size
      → pages < fuel
      → Told log m s
      → Yields
          (Told (log ++ pages_log buf sector_addr m pages p) m)
          tt
          (program_loop dif flash rounds buf sector_addr size fuel p s)
  unfolding program_loop
  program_lem rounds buf sector_addr size zero pages p enough whole fuel told = absurd (omega arith)
  program_lem rounds buf sector_addr size (suc fuel) zero p {log} {s = s} enough whole bound told =
      let done : ltb p size ≡ false = ground arith in rw (done, append-nil log) (yields tt s told)
  program_lem rounds buf sector_addr size (suc fuel) (suc pages) p {log} {m} {s} enough whole bound
        told =
      let more : ltb p size ≡ true = ground arith in
      let segments : List Segment =
        opcode 0x12 ∷ address (u32 (sector_addr + p)) ∷ tx (load_bytes (buf + p) 256 m) ∷ [] in
      let bytes : load_bytes (buf + p) 256 s.mem ≡ load_bytes (buf + p) 256 m =
        ap (load_bytes (buf + p) 256) told.memory in
      rw
        (
          more,
          bytes,
          ← append_assoc log (enabled segments) (pages_log buf sector_addr m pages (p + 256)),
        )
        (bind _ (write_lem rounds segments enough refl told) λ s told.
          program_lem rounds buf sector_addr size fuel pages (p + 256) enough (omega arith)
            (omega arith) told)

  small_lem :
      (rounds sector_addr size : ℕ) {log : Commands} {m : Memory} {s : State W}
      → patience ≤ rounds
      → Told log m s
      → Yields
          (Told
            (log
              ++ (if erases_small sector_addr
                  then erase_small_log (small_sectors sector_addr size) 8 0
                  else []))
            m)
          tt
          (when
            (erases_small sector_addr)
            (erase_small_loop dif flash rounds (small_sectors sector_addr size) 8 0)
            s)
  small_lem rounds sector_addr size {log} {s = s} enough told =
      elim (Bool-cases (erases_small sector_addr)) [
        | inl e ↦ rw e (erase_small_lem rounds (small_sectors sector_addr size) 8 0 enough told)
        | inr e ↦ rw e (yields tt s (rw (append-nil log) told))
      ]

  sector_lem :
      (rounds buf sector_addr : ℕ) {log : Commands} {m : Memory} {s : State W}
      → patience ≤ rounds
      → Told log m s
      → Yields
          (Told (log ++ sector_log buf sector_addr m) m)
          tt
          (single_flash_sector dif flash rounds buf sector_addr (256 * 1024) s)
  unfolding single_flash_sector
  sector_lem rounds buf sector_addr {log} {m} enough told =
      let small : Commands =
        if erases_small sector_addr
        then erase_small_log (small_sectors sector_addr (256 * 1024)) 8 0
        else [] in
      let erase : List Segment = opcode 0xdc ∷ address (u32 sector_addr) ∷ [] in
      rw
        (
          ← append_assoc log small (enabled erase ++ pages_log buf sector_addr m 1024 0),
          ← append_assoc (log ++ small) (enabled erase) (pages_log buf sector_addr m 1024 0),
        )
        (bind _ (small_lem rounds sector_addr (256 * 1024) enough told) λ s told.
          bind _ (write_lem rounds erase enough refl told) λ s told.
            program_lem rounds buf sector_addr (256 * 1024) (256 * 1024 + 1) 1024 0 enough
              (omega arith) (omega arith) told)

  sectors_lem :
      (rounds buf sector left s : ℕ) {log : Commands} {m : Memory} {st : State W}
      → patience ≤ rounds
      → Told log m st
      → Yields
          (Told (log ++ sectors_log buf sector m left s) m)
          tt
          (sector_loop dif flash rounds buf sector left s st)
  unfolding sector_loop
  sectors_lem rounds buf sector zero s {log} {st = st} enough told =
      rw (append-nil log) (yields tt st told)
  sectors_lem rounds buf sector (suc left) s {log} {m} enough told =
      let one : Commands = sector_log (buf + (s <<< 18)) (u64 (u64 (sector + s) <<< 18)) m in
      rw (← append_assoc log one (sectors_log buf sector m left (s + 1))) (
        bind _ (sector_lem rounds (buf + (s <<< 18)) (u64 (u64 (sector + s) <<< 18)) enough told)
          λ st told. sectors_lem rounds buf sector left (s + 1) enough told)

  -- Flashing at a speed that the commands allow, to a chip that is busy for less than a number of status
  -- reads after each command: for at least that many rounds it returns zero, and has told the chip, for
  -- every sector in turn, to erase it (with its small sectors first, where there may be some) and to
  -- program the buffer's bytes page by page, each of these enabled by a command in front of it, and followed
  -- by a read of the status that finds the chip idle before the next one; the memory is as before.
  pub single_flash-programs :
      (rounds buf sector num_sectors : ℕ) {log : Commands} {m : Memory} {s : State W}
      → flash.spi_freq < 100000000
      → patience ≤ rounds
      → Told log m s
      → Yields
          (Told ((log ++ mode_log) ++ sectors_log buf sector m num_sectors 0) m)
          tt
          (single_flash dif flash rounds buf sector num_sectors s)
  unfolding single_flash
  single_flash-programs rounds buf sector num_sectors {log} slow enough told =
      let allowed : ltb flash.spi_freq (100 * 1000 * 1000) ≡ true = ground arith in
      let mode : log ++ mode_log
          ≡ ((((log ++ (opcode 0x06 ∷ []) ∷ []) ++ (opcode 0xb7 ∷ []) ∷ [])
                ++ (opcode 0x06 ∷ []) ∷ [])
              ++ (opcode 0x71 ∷ address 0x00800004 ∷ rx 1 ∷ []) ∷ [])
            ++ read_status ∷ [] =
        simp append_assoc in
      rw (allowed, mode)
        (bind _ (set_wen_lem told) λ s w. bind _ (issue_lem (opcode 0xb7 ∷ []) refl w.told) λ s w.
          bind _ (set_wen_lem w.told) λ s w.
            bind _ (issue_lem (opcode 0x71 ∷ address 0x00800004 ∷ rx 1 ∷ []) refl w.told) λ s w.
              bind _ (poll_wip_lem rounds (let b = w.bounded in omega arith) w.told)
                λ s told. sectors_lem rounds buf sector num_sectors 0 enough told)
