-- ===== src/Capture/AuditLog/Appending.antt =====
-- crates/wsrx/src/cli/capture.rs: what a successful call of `append_audit` leaves in the directory.
use lab_stream_gate.Common.{
  ℕ, ◌≡◌, sym, Option, Bool, leb, ap, ◌∙◌, ◌≢◌, inl, inr, true, false, none, some, List, [], ◌∷◌,
  ◌++◌, arith, if◌then◌else◌, length, length-append, ok, Bool-cases,
}
use lab_stream_gate.Common.Text.{Text, codes, same}
use lab_stream_gate.Common.Dict.{
  lookup, insert, remove, IsDict, lookup-insert, lookup-remove, remove-IsDict,
}
use lab_stream_gate.Capture.Segment.{safe_segment}
use lab_stream_gate.Capture.AuditLog.{
  Files, AuditIo, audit_file, rotated_file, contents, is_large, remove_old, rename_over, append_to,
  append_audit,
}

audit_file-ne-rotated_file : (i : Text) → audit_file i ≢ rotated_file i
unfolding audit_file rotated_file
audit_file-ne-rotated_file i e = omega (
  arith,
  ap length e,
  length-append (safe_segment i) (codes ".jsonl"),
  length-append (safe_segment i) (codes ".jsonl.1"),
)

append_to-eq_ok :
    (io : AuditIo) (path : Text) (old line : List ℕ) (files after : Files)
    → append_to io path old line files ≡ (after, ok tt)
    → after ≡ insert path (old ++ (line ++ b'\n' ∷ [])) files
unfolding append_to
append_to-eq_ok io path old line files after h = ground arith

-- The files on which the line is appended.
abbrev turned : AuditIo → Text → Files → Files
turned io i files =
    if is_large io.metadata (lookup (audit_file i) files)
    then rename_over (audit_file i) (rotated_file i) (contents (lookup (audit_file i) files))
        (remove_old io (rotated_file i) files)
    else files

append_audit-eq_ok :
    (io : AuditIo) (i : Text) (line : List ℕ) (files after : Files)
    → append_audit io i line files ≡ (after, ok tt)
    → after
      ≡ insert
          (audit_file i)
          (contents (lookup (audit_file i) (turned io i files)) ++ (line ++ b'\n' ∷ []))
          (turned io i files)
append_audit-eq_ok io i line files after h =
    append_to-eq_ok io (audit_file i) (contents (lookup (audit_file i) (turned io i files))) line
      (turned io i files) after (unfold append_audit in ground arith)

remove_old-IsDict :
    (io : AuditIo) (rotated : Text) (files : Files)
    → IsDict files
    → IsDict (remove_old io rotated files)
unfolding remove_old
remove_old-IsDict io rotated files d = ground (arith, remove-IsDict rotated files d)

lookup-remove_old :
    (io : AuditIo) (rotated k : Text) (files : Files)
    → IsDict files
    → rotated ≢ k
    → lookup k (remove_old io rotated files) ≡ lookup k files
unfolding remove_old
lookup-remove_old io rotated k files d n = ground (arith, lookup-remove rotated k files d)

lookup-rename_over :
    (path rotated k : Text) (content : List ℕ) (files : Files)
    → IsDict files
    → path ≢ rotated
    → lookup k (rename_over path rotated content files)
      ≡ (if same rotated k then some content else if same path k then none else lookup k files)
unfolding rename_over
lookup-rename_over path rotated k content files d n =
    ground
      (arith, lookup-insert rotated k content (remove path files), lookup-remove path k files d)

-- What the files that the line is appended to hold.
turned-lookup :
    (io : AuditIo) (i k : Text) (files : Files)
    → IsDict files
    → ((is_large io.metadata (lookup (audit_file i) files) ≡ true)
        → (lookup (audit_file i) (turned io i files) ≡ none)
          × (lookup (rotated_file i) (turned io i files) ≡ lookup (audit_file i) files)
          × (audit_file i ≢ k → rotated_file i ≢ k → lookup k (turned io i files) ≡ lookup k files))
      × ((is_large io.metadata (lookup (audit_file i) files) ≡ false) → turned io i files ≡ files)
turned-lookup io i k files d =
    let p = audit_file i in
    let r = rotated_file i in
    let ne = audit_file-ne-rotated_file i in
    let ne' : r ≢ p = λ e. ne (sym e) in
    let left = remove_old-IsDict io r files d in
    let at = λ (j : Text).
      lookup-rename_over p r j (contents (lookup p files)) (remove_old io r files) left ne in
    (
      λ l. (
        ground (arith, at p),
        ground (arith, at r),
        λ a b. ground (arith, at k, lookup-remove_old io r k files d b),
      ),
      λ l. ground arith,
    )

append_audit_lem :
    (io : AuditIo) (i : Text) (line : List ℕ) (files after : Files)
    → IsDict files
    → append_audit io i line files ≡ (after, ok tt)
    → let old = lookup (audit_file i) files in
      (lookup (audit_file i) after
        ≡ some ((if is_large io.metadata old then [] else contents old) ++ (line ++ b'\n' ∷ [])))
      × (lookup (rotated_file i) after
          ≡ (if is_large io.metadata old then old else lookup (rotated_file i) files))
      × ((k : Text) → audit_file i ≢ k → rotated_file i ≢ k → lookup k after ≡ lookup k files)
append_audit_lem io i line files after d h =
    elim (Bool-cases (is_large io.metadata (lookup p files))) [
      | inl l ↦
          let (gone, moved, _) = (turned-lookup io i p files d).0 l in
          (
            rw (l, looks p) (ground (arith, gone)),
            rw (l, looks r) (ground (arith, moved, audit_file-ne-rotated_file i)),
            λ k a b. looks k ∙ ground (arith, ((turned-lookup io i k files d).0 l).2 a b),
          )
      | inr s ↦
          let same_files = (turned-lookup io i p files d).1 s in
          (
            rw (s, looks p, same_files) (ground arith),
            rw (s, looks r, same_files) (ground (arith, audit_file-ne-rotated_file i)),
            λ k a b. looks k ∙ rw same_files (ground arith),
          )
    ]
  where
    p : Text
    p = audit_file i

    r : Text
    r = rotated_file i

    written : List ℕ
    written = contents (lookup p (turned io i files)) ++ (line ++ b'\n' ∷ [])

    looks :
        (k : Text)
        → lookup k after ≡ (if same p k then some written else lookup k (turned io i files))
    looks k =
        ap (lookup k) (append_audit-eq_ok io i line files after h)
        ∙ lookup-insert p k written (turned io i files)

-- Whether a file that holds `old` has 16 MiB or more, as far as its metadata can be read.
abbrev pub reaches_limit : AuditIo → Option (List ℕ) → Bool
reaches_limit io old = elim io.metadata [
  | none ↦ leb 16777216 (length (contents old))
  | some e ↦ false
]

reaches_limit-is_large :
    (io : AuditIo) (old : Option (List ℕ)) → is_large io.metadata old ≡ reaches_limit io old
reaches_limit-is_large io old = ground arith

-- A call that succeeds, in a directory with one file of a name, appends the line and a line break to
-- the file `<segment of the instance>.jsonl`, after moving it to `<segment>.jsonl.1` if its metadata
-- can be read and say that it has 16 MiB or more; it changes no other file.
pub lookup-append_audit :
    (io : AuditIo) (i k : Text) (line : List ℕ) (files after : Files)
    → IsDict files
    → append_audit io i line files ≡ (after, ok tt)
    → let path = safe_segment i ++ codes ".jsonl" in
      let rotated = safe_segment i ++ codes ".jsonl.1" in
      let old = lookup path files in
      lookup k after ≡ (
        if same path k
        then some ((if reaches_limit io old then [] else contents old) ++ (line ++ b'\n' ∷ []))
        else (if same rotated k
            then (if reaches_limit io old then old else lookup k files)
            else lookup k files))
unfolding audit_file rotated_file
lookup-append_audit io i k line files after d h =
    let (written, moved, kept) = append_audit_lem io i line files after d h in
    let limit = reaches_limit-is_large io (lookup (audit_file i) files) in
    elim (Bool-cases (same (audit_file i) k)) [
      | inl a ↦ ground arith
      | inr a ↦ elim (Bool-cases (same (rotated_file i) k)) [
        | inl b ↦ ground arith
        | inr b ↦ ground (arith, kept k (λ e. ground arith) (λ e. ground arith))
      ]
    ]
