-- ===== src/Processes/Find.antt =====
-- The table of processes finds what was put in, and nothing that was taken out.
use valerioedx.Base.{
  ℕ, ◌%◌, ◌≡◌, refl, ◌≢◌, ◌⊎◌, inl, inr, List, [], ◌∷◌, ◌==◌, if◌then◌else◌, arith,
}
use valerioedx.Processes.{
  Process, System, pid_hash_size, pid_hash_insert, unlink, pid_hash_remove, find_in,
  find_process_by_pid,
}

-- After pid_hash_insert a search finds the process under its number, and every other number
-- finds what it found before.
pub find-insert :
    (s : System) (proc pid : ℕ)
    → find_process_by_pid pid (pid_hash_insert proc s)
      ≡ (if (s.procs proc).pid == pid then proc else find_process_by_pid pid s)
unfolding find_process_by_pid pid_hash_insert find_in
find-insert s proc pid = ground arith

-- No process of the chain has the number.
abbrev pub Absent : (ℕ → Process) → ℕ → List ℕ → Type 0
Absent procs pid [] = Unit {0}
Absent procs pid (p ∷ ps) = ((procs p).pid ≢ pid) × Absent procs pid ps

abbrev pub In : ℕ → List ℕ → Type 0
In proc [] = ⊥
In proc (p ∷ ps) = (p ≡ proc) ⊎ In proc ps

-- Processes of one chain have different numbers.
abbrev pub AllDistinct : (ℕ → Process) → List ℕ → Type 0
AllDistinct procs [] = Unit {0}
AllDistinct procs (p ∷ ps) = Absent procs (procs p).pid ps × AllDistinct procs ps

find_in-Absent :
    (procs : ℕ → Process) (pid : ℕ) (ps : List ℕ) → Absent procs pid ps → find_in pid procs ps ≡ 0
unfolding find_in
find_in-Absent procs pid [] h = refl
find_in-Absent procs pid (p ∷ ps) h = ground (arith, find_in-Absent procs pid ps h.1)

pid_of_In :
    (procs : ℕ → Process) (proc pid : ℕ) (ps : List ℕ)
    → Absent procs pid ps
    → In proc ps
    → (procs proc).pid ≢ pid
pid_of_In procs proc pid [] a m = absurd m
pid_of_In procs proc pid (p ∷ ps) a (inl e) = rw (← e) a.0
pid_of_In procs proc pid (p ∷ ps) a (inr m) = pid_of_In procs proc pid ps a.1 m

find_in-unlink :
    (procs : ℕ → Process) (proc pid : ℕ) (ps : List ℕ)
    → AllDistinct procs ps
    → In proc ps
    → find_in pid procs (unlink proc ps)
      ≡ (if (procs proc).pid == pid then 0 else find_in pid procs ps)
unfolding find_in unlink
find_in-unlink procs proc pid [] d m = absurd m
find_in-unlink procs proc pid (p ∷ ps) d (inl e) =
    ground (arith, find_in-Absent procs (procs p).pid ps d.0)
find_in-unlink procs proc pid (p ∷ ps) d (inr m) =
    ground
      (arith, find_in-unlink procs proc pid ps d.1 m, pid_of_In procs proc (procs p).pid ps d.0 m)

-- Where the processes of a chain have different numbers, after pid_hash_remove of one of them a
-- search for its number finds nothing, and every other number finds what it found before.
pub find-remove :
    (s : System) (proc pid : ℕ)
    → AllDistinct s.procs (s.pid_hash ((s.procs proc).pid % pid_hash_size))
    → In proc (s.pid_hash ((s.procs proc).pid % pid_hash_size))
    → find_process_by_pid pid (pid_hash_remove proc s)
      ≡ (if (s.procs proc).pid == pid then 0 else find_process_by_pid pid s)
unfolding find_process_by_pid pid_hash_remove
find-remove s proc pid d m =
    ground
      (arith, find_in-unlink s.procs proc pid (s.pid_hash ((s.procs proc).pid % pid_hash_size)) d m)
