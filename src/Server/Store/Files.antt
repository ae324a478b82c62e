-- ===== src/Server/Store/Files.antt =====
-- A disk as its files by path: writing one, and `fs::rename`.
use riscv_exam_computer.Base.{ℕ, Option, none, some, List, if◌then◌else◌, Str, str_eq}

abbrev pub Disk : Type 0
Disk = Str → Option (List ℕ)

unfoldable pub write_file : Str → List ℕ → Disk → Disk
write_file path bytes disk other = if str_eq other path then some bytes else disk other

-- The file takes the place of the one at its new path.
unfoldable pub rename_file : Str → Str → Disk → Disk
rename_file old new disk other =
    if str_eq other new then disk old else if str_eq other old then none else disk other
