-- ===== src/Logger.antt =====
-- pkg/logger/log.go: the writer that begins a new file each day. The file system is what its calls give:
-- whether a file can be opened, and what a write to an open file gives.
pub mod Days
use gotaxy.Prelude.{
  ℕ, suc, String, Bool, true, false, not, ◌||◌, Option, none, some, List, [], ◌∷◌, ◌++◌, str_eq,
  ◌==◌, if◌then◌else◌,
}
use gotaxy.Wire.{Bytes, Written, taken, succeeded}

-- An `*os.File`: the standard output, or a file that was opened, with its number and the date in its
-- name.
pub data File : Type 0 where
  stdout : File
  opened : ℕ → String → File

abbrev pub same_file : File → File → Bool
same_file stdout stdout = true
same_file (opened i _) (opened j _) = i == j
same_file _ _ = false

-- The writer with what it has done: the files it has closed, and what was written to which file.
pub record RollingFileWriter : Type 0 where
  pub current_date : String
  pub current_file : Option File
  pub next : ℕ
  pub closed : List File
  pub written : List (File × Bytes)

abbrev pub new_rolling_file_writer : String → RollingFileWriter
new_rolling_file_writer today = record {
  current_date = today;
  current_file = none;
  next = 0;
  closed = [];
  written = [];
}

unfoldable pub is_closed : List File → File → Bool
is_closed [] file = false
is_closed (f ∷ files) file = same_file f file || is_closed files file

-- If the file cannot be opened, the standard output takes its place, and the date stays.
unfoldable pub open_new_file : String → Bool → RollingFileWriter → RollingFileWriter
open_new_file today opens w =
    if opens
    then record w {
      current_file = some (opened w.next today);
      current_date = today;
      next = suc w.next;
    }
    else record w { current_file = some stdout }

unfoldable pub should_rotate : String → RollingFileWriter → Bool
should_rotate today w = not (str_eq today w.current_date)

unfoldable pub rotate : String → Bool → RollingFileWriter → RollingFileWriter
unfolding open_new_file
rotate today opens w = elim w.current_file [
  | none ↦ open_new_file today opens w
  | some file ↦ open_new_file today opens (record w { closed = file ∷ w.closed })
]

-- currentFile.Write(p): it fails on a file that was closed, and else gives what the file system gives.
unfoldable pub write_file : Written → Bytes → RollingFileWriter → RollingFileWriter × Bool
unfolding is_closed
write_file result p w = elim w.current_file [
  | none ↦ (w, false)
  | some file ↦
      if is_closed w.closed file
      then (w, false)
      else (record w { written = w.written ++ (file, taken result p) ∷ [] }, succeeded result)
]

-- Whether there is a file yet.
abbrev pub is_nil : Option File → Bool
is_nil none = true
is_nil (some _) = false

unfoldable pub write :
    String → Bool → Written → Bytes → RollingFileWriter → RollingFileWriter × Bool
unfolding should_rotate rotate write_file
write today opens result p w =
    if should_rotate today w || is_nil w.current_file
    then write_file result p (rotate today opens w)
    else write_file result p w
