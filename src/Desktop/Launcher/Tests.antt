-- ===== src/Desktop/Launcher/Tests.antt =====
-- The launcher at concrete inputs.
use lab_stream_gate.Common.{◌≡◌, ◌≢◌, ℕ, Bool, Option, true, some, [], ◌∷◌, arith}
use lab_stream_gate.Common.Text.{codes}
use lab_stream_gate.Common.Dict.{Dict}
use lab_stream_gate.Desktop.Launcher.{
  LogFile, live_log, write_lock_file, try_notify_existing_instance,
}
use lab_stream_gate.Desktop.Launcher.Lock.{
  gives_way, goes_on, try_notify_existing_instance-write_lock_file,
}

-- The live log of the session before, an archive that is old, and a file that is no log.
abbrev directory : Dict LogFile
directory =
    (live_log, record { modified = some 900000000000000; content = codes "crash" })
    ∷ (codes "wsrx-100.log", record { modified = some 100; content = codes "old" })
    ∷ (codes "notes.txt", record { modified = some 90; content = [] })
    ∷ []

-- A running instance that answers every request with success.
abbrev answers : ℕ → Option Bool
answers port = some true

try_notify_existing_instance-write_lock_file_example :
    (answers 4711 ≡ some true
      → try_notify_existing_instance true answers (write_lock_file 4711)
        ≡ gives_way (write_lock_file 4711))
    × (answers 4711 ≢ some true
        → try_notify_existing_instance true answers (write_lock_file 4711)
          ≡ goes_on true (write_lock_file 4711))
try_notify_existing_instance-write_lock_file_example =
    try_notify_existing_instance-write_lock_file true answers 4711 (omega arith)
