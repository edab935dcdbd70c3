-- ===== src/Core/Files.antt =====
-- core/file.go: `SaveToFile` on a disk of files by path.
use httshark.Base.{Bool, true, false, Option, none, some, List, Bytes, bytes_eq, insert}

-- the contents of files, by path
abbrev pub Disk : Type 0
Disk = List (Bytes × Bytes)

-- the call of package `os` that fails, with what a failing write has written
pub data Fault : Type 0 where
  create_failed close_failed : Fault
  write_failed : Bytes → Fault

-- `SaveToFile`: the disk, and whether an error was returned. A file that is created is empty.
unfoldable pub save_to_file : Option Fault → Bytes → Bytes → Disk → Disk × Bool
save_to_file none path text disk = (insert path text disk, false)
save_to_file (some create_failed) path text disk = (disk, true)
save_to_file (some (write_failed written)) path text disk = (insert path written disk, true)
save_to_file (some close_failed) path text disk = (insert path text disk, true)
