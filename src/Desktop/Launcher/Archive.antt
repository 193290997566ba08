-- ===== src/Desktop/Launcher/Archive.antt =====
-- crates/desktop/src/launcher.rs: what is in the directory of logs when a session starts.
use lab_stream_gate.Common.{
  ℕ, ◌+◌, ◌-◌, ◌*◌, ◌≢◌, ltb, length, drop, ◌++◌, ◌≡◌, Bool, false, ◌&&◌, Option, none, some, [],
  if◌then◌else◌, is_some,
}
use lab_stream_gate.Common.Text.{Text, same, codes}
use lab_stream_gate.Common.Dict.{Dict, lookup}
use lab_stream_gate.Desktop.Launcher.{LogFile, live_log}

-- The name ends in `.log`, behind at least one character.
abbrev pub ends_in_log : Text → Bool
ends_in_log name = ltb 4 (length name) && same (drop (length name - 4) name) (codes ".log")

-- It was modified, as far as the system tells, more than three days ago, in nanoseconds.
abbrev pub is_older : ℕ → Option ℕ → Bool
is_older now none = false
is_older now (some modified) = ltb (modified + 3 * 24 * 3600 * 1000000000) now

-- A file that is not a log of more than three days.
abbrev pub fresh : ℕ → Text → Option LogFile → Option LogFile
fresh now name none = none
fresh now name (some file) =
    if ends_in_log name && is_older now file.modified then none else some file

IsLogName : Text → Type 0
IsLogName name = (stem : Text) × (stem ≢ []) × (name ≡ stem ++ codes ".log")

-- What a session finds under a name: nothing as the live log, what that was under the name of the
-- archive, and under other names what is no stale log.
abbrev pub archived : ℕ → Text → Dict LogFile → Text → Option LogFile
archived now archive files name =
    let live = fresh now live_log (lookup live_log files) in
    if is_some live && same archive name
    then live
    else if same live_log name
    then none
    else fresh now name (lookup name files)
