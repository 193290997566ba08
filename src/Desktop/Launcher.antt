-- ===== src/Desktop/Launcher.antt =====
-- crates/desktop/src/launcher.rs: the lock file by which a second start of the application finds the
-- running one, and the directory of logs.
pub mod Lock
pub mod Archive
mod Tests
use lab_stream_gate.Common.{
  ℕ, zero, suc, ◌+◌, ◌-◌, ◌/◌, ◌%◌, Bool, true, false, not, ◌&&◌, Option, none, some, List, [], ◌∷◌,
  ◌++◌, ltb, if◌then◌else◌, is_empty, is_some,
}
use lab_stream_gate.Common.Text.{Text, codes, same}
use lab_stream_gate.Common.Dict.{Dict, lookup, insert, remove}
use lab_stream_gate.Common.Parse.{trim, parse_u16, rsplit_once}

-- What stands under the path of the lock file.
pub data LockFile : Type 0 where
  no_lock unreadable : LockFile
  holds_text : Text → LockFile

-- `to_string` of a number below ten to the fuel.
unfoldable pub to_decimal : ℕ → ℕ → Text
to_decimal zero n = []
to_decimal (suc fuel) n =
    let rest = to_decimal fuel (n / 10) in
    if ltb n 10 then (b'0' + n) ∷ [] else rest ++ (b'0' + n % 10) ∷ []

-- `write_lock_file`, when the file can be written; else the program exits. Five digits are enough for
-- a port.
unfoldable pub write_lock_file : ℕ → LockFile
unfolding to_decimal
write_lock_file port = holds_text (to_decimal 5 port)

-- `remove_lock_file`, which may fail; failures are only printed.
unfoldable pub remove_lock_file : Bool → LockFile → LockFile
remove_lock_file true lock = no_lock
remove_lock_file false lock = lock

-- The lock file after it, and the port.
unfoldable pub read_lock_file_port : Bool → LockFile → LockFile × Option ℕ
unfolding remove_lock_file trim parse_u16
read_lock_file_port removes (holds_text s) = elim (parse_u16 (trim s)) [
  | some port ↦ (holds_text s, some port)
  | none ↦ (remove_lock_file removes (holds_text s), none)
]
read_lock_file_port removes unreadable = (remove_lock_file removes unreadable, none)
read_lock_file_port removes no_lock = (remove_lock_file removes no_lock, none)

-- `notify_existing_instance`: whether the request is answered with success. `reply` says whether a
-- request to a port is answered, and then whether with success.
unfoldable pub notify_existing_instance : (ℕ → Option Bool) → ℕ → Bool
notify_existing_instance reply port = elim (reply port) [ none ↦ false | some success ↦ success ]

-- What follows the reading of the port.
unfoldable pub notify_at : Bool → (ℕ → Option Bool) → LockFile × Option ℕ → LockFile × Bool
unfolding notify_existing_instance remove_lock_file
notify_at removes reply (lock, none) = (lock, false)
notify_at removes reply (lock, some port) =
    if notify_existing_instance reply port
    then (lock, true)
    else (remove_lock_file removes lock, false)

-- `try_notify_existing_instance`: the lock file after it, and whether this start has to give way.
unfoldable pub try_notify_existing_instance : Bool → (ℕ → Option Bool) → LockFile → LockFile × Bool
unfolding notify_at read_lock_file_port
try_notify_existing_instance removes reply no_lock = (no_lock, false)
try_notify_existing_instance removes reply unreadable =
    notify_at removes reply (read_lock_file_port removes unreadable)
try_notify_existing_instance removes reply (holds_text s) =
    notify_at removes reply (read_lock_file_port removes (holds_text s))

-- A file of the log directory: when it was modified, if the system tells, and what it holds.
pub record LogFile : Type 0 where
  pub modified : Option ℕ
  pub content : Text

-- `path.extension()` is `log`.
unfoldable pub is_log : Text → Bool
unfolding rsplit_once
is_log name = elim (rsplit_once b'.' name) [
  | none ↦ false
  | some (stem, extension) ↦ not (is_empty stem) && same extension (codes "log")
]

abbrev pub is_before : Option ℕ → ℕ → Bool
is_before none cutoff = false
is_before (some modified) cutoff = ltb modified cutoff

abbrev pub is_stale : ℕ → Text → LogFile → Bool
is_stale cutoff name file = is_log name && is_before file.modified cutoff

-- The loop that prunes; `removes` says of which files the removal succeeds.
unfoldable pub prune_logs : (Text → Bool) → ℕ → Dict LogFile → Dict LogFile
unfolding is_log
prune_logs removes cutoff [] = []
prune_logs removes cutoff ((name, file) ∷ files) =
    let rest = prune_logs removes cutoff files in
    if is_stale cutoff name file && removes name then rest else (name, file) ∷ rest

abbrev pub live_log : Text
live_log = codes "wsrx.log"

-- `archive_current_log`, with the name of the archive; `renames` says whether the renaming succeeds.
unfoldable pub archive_current_log : Bool → Text → Dict LogFile → Dict LogFile
unfolding lookup insert remove
archive_current_log renames archive files = elim (lookup live_log files) [
  | none ↦ files
  | some file ↦ if renames then insert archive file (remove live_log files) else files
]

-- Three days before a time in nanoseconds, but not before the epoch.
abbrev pub stale_before : ℕ → ℕ
stale_before now = now - 259200000000000

-- The name of the archive for a time in seconds, which has at most 20 digits.
unfoldable pub archive_name : ℕ → Text
unfolding to_decimal
archive_name seconds = codes "wsrx-" ++ (to_decimal 20 seconds ++ codes ".log")

-- `prepare_log_dir`, once the directory is there: logs older than three days are pruned. The clock is
-- read twice.
unfoldable pub prepare_log_dir : (Text → Bool) → Bool → ℕ → ℕ → Dict LogFile → Dict LogFile
unfolding prune_logs archive_current_log archive_name
prepare_log_dir removes renames now seconds files =
    archive_current_log renames (archive_name seconds) (prune_logs removes (stale_before now) files)
