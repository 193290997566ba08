-- ===== src/Capture/Retention.antt =====
-- crates/wsrx/src/cli/capture.rs: `cleanup_capture_files` and `collect_pcaps`. Times are
-- nanoseconds since the epoch, so that a cutoff before it lies under every time, as one at it does.
pub mod Trimming
use lab_stream_gate.Common.{
  ℕ, zero, suc, ◌+◌, ◌-◌, ◌*◌, ◌%◌, ◌≤◌, ◌<◌, ◌≡◌, ◌↔◌, refl, sym, ap, subst, ◌⊎◌, inl, inr, Bool,
  true, false, not, ◌&&◌, Option, none, some, List, [], ◌∷◌, ◌++◌, arith, min, leb, ltb,
  if◌then◌else◌, drop, retain, All, Result, ok, err, Bool-cases,
}
use mathlib.Core.List.{Perm}
use mathlib.Core.List.Perm
use lab_stream_gate.Common.Text.{Text}
use lab_stream_gate.Capture.Observer.{u64_mod}

pub record Capture : Type 0 where
  pub path : Text
  pub modified : ℕ
  pub size : ℕ

-- What reading a directory gives. A file comes with whether its extension is `pcap` and with its
-- metadata if they can be read; an entry that cannot be read is skipped (`flatten`).
mutual
  pub data Entry : Type 0 where
    file : Bool → Option Capture → Entry
    directory : Listing → Entry
    unread : Entry

  pub data Listing : Type 0 where
    is_missing : Listing
    is_refused : Text → Listing
    nil : Listing
    cons : Entry → Listing → Listing

-- `collect_pcaps`, which pushes onto `files`; an error ends it.
unfoldable mutual
  collect_pcaps : Listing → List Capture → Result Text (List Capture)
  collect_pcaps is_missing files = ok files
  collect_pcaps (is_refused e) files = err e
  collect_pcaps nil files = ok files
  collect_pcaps (cons entry rest) files = elim (collect_entry entry files) [
    | err e ↦ err e
    | ok more ↦ collect_pcaps rest more
  ]

  collect_entry : Entry → List Capture → Result Text (List Capture)
  collect_entry (directory listing) files = collect_pcaps listing files
  collect_entry (file true (some c)) files = ok (files ++ c ∷ [])
  collect_entry (file true none) files = ok files
  collect_entry (file false metadata) files = ok files
  collect_entry unread files = ok files

-- `now` less the days of retention; `saturating_mul` stops at the greatest 64-bit number of seconds.
unfoldable pub cutoff : ℕ → ℕ → ℕ
cutoff now retention_days = now - min (u64_mod - 1) (retention_days * 86400) * 1000000000

-- The first loop and the `retain` after it: an old file is gone, unless removing it fails.
unfoldable pub drop_old : (Text → Bool) → ℕ → List Capture → List Capture
drop_old removable limit files =
    retain (λ (c : Capture). not (ltb c.modified limit && removable c.path)) files

-- `sort_by_key` by the time of the last change, which keeps the order of equal ones.
unfoldable pub insert_by_time : Capture → List Capture → List Capture
insert_by_time c [] = c ∷ []
insert_by_time c (d ∷ ds) =
    let rest = insert_by_time c ds in if leb c.modified d.modified then c ∷ d ∷ ds else d ∷ rest

unfoldable pub sort_by_time : List Capture → List Capture
unfolding insert_by_time
sort_by_time [] = []
sort_by_time (c ∷ cs) = insert_by_time c (sort_by_time cs)

abbrev pub total_size : List Capture → ℕ
total_size [] = 0
total_size (c ∷ cs) = c.size + total_size cs

-- The second loop: the files that are left when the total is within the limit.
unfoldable pub drop_excess : (Text → Bool) → ℕ → ℕ → List Capture → List Capture
drop_excess removable limit total [] = []
drop_excess removable limit total (c ∷ cs) =
    let fewer = drop_excess removable limit (total - c.size) cs in
    let kept = drop_excess removable limit total cs in
    if leb total limit then c ∷ cs else if removable c.path then fewer else c ∷ kept

-- `cleanup_capture_files` on the files that it collects: those that are left.
unfoldable pub cleanup_files : (Text → Bool) → ℕ → ℕ → ℕ → List Capture → List Capture
unfolding cutoff drop_old sort_by_time drop_excess
cleanup_files removable now retention_days max_total_bytes files =
    let young = sort_by_time (drop_old removable (cutoff now retention_days) files) in
    drop_excess removable max_total_bytes (total_size young % u64_mod) young

unfoldable pub cleanup_capture_files :
    (Text → Bool) → ℕ → ℕ → ℕ → Listing → Result Text (List Capture)
unfolding cleanup_files collect_pcaps
cleanup_capture_files removable now retention_days max_total_bytes captures =
    elim (collect_pcaps captures []) [
      | err e ↦ err e
      | ok files ↦ ok (cleanup_files removable now retention_days max_total_bytes files)
    ]
