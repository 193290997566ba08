-- ===== src/Capture/AuditLog.antt =====
-- crates/wsrx/src/cli/capture.rs: `append_audit`, over the files of the directory `audit`.
pub mod Appending
use lab_stream_gate.Common.{
  ℕ, ◌+◌, ◌*◌, ◌≤◌, ◌<◌, ◌≡◌, refl, sym, ap, ◌∙◌, ◌⊎◌, inl, inr, Bool, true, false, Option, none,
  some, List, [], ◌∷◌, ◌++◌, arith, leb, ltb, if◌then◌else◌, length, length-append, Result, ok, err,
  ◌>>=◌, Option-cases, Bool-cases,
}
use lab_stream_gate.Common.Text.{Text, codes, same}
use lab_stream_gate.Common.Dict.{
  Dict, lookup, insert, remove, IsDict, lookup-insert, lookup-remove, remove-IsDict,
}
use lab_stream_gate.Capture.Segment.{safe_segment}

abbrev pub Files : Type 0
Files = Dict (List ℕ)

-- What the file system answers to one call; `none` is success. A write that fails leaves a part of
-- what it was given.
pub record AuditIo : Type 0 where
  pub create_dir_all : Option Text
  pub metadata : Option Text
  pub remove_file : Option Text
  pub rename : Option Text
  pub open_file : Option Text
  pub write_line : Option (List ℕ × Text)
  pub write_newline : Option Text
  pub flush : Option Text

abbrev pub max_audit_bytes : ℕ
max_audit_bytes = 16 * 1024 * 1024

unfoldable pub audit_file : Text → Text
audit_file instance_id = safe_segment instance_id ++ codes ".jsonl"

unfoldable pub rotated_file : Text → Text
rotated_file instance_id = safe_segment instance_id ++ codes ".jsonl.1"

abbrev pub contents : Option (List ℕ) → List ℕ
contents none = []
contents (some c) = c

-- Whether the file is rotated: a file that is missing, or whose metadata cannot be read, is not.
abbrev pub is_large : Option Text → Option (List ℕ) → Bool
is_large (some e) file = false
is_large none none = false
is_large none (some c) = leb max_audit_bytes (length c)

unfoldable pub remove_old : AuditIo → Text → Files → Files
remove_old io rotated files = elim io.remove_file [ none ↦ remove rotated files | some e ↦ files ]

unfoldable pub rename_over : Text → Text → List ℕ → Files → Files
rename_over path rotated content files = insert rotated content (remove path files)

unfoldable pub rotate : AuditIo → Text → Text → Files → Files × Result Text (Unit {0})
unfolding remove_old rename_over
rotate io path rotated files = elim io.rename [
  | some e ↦ (remove_old io rotated files, err e)
  | none ↦
      (rename_over path rotated (contents (lookup path files)) (remove_old io rotated files), ok tt)
]

unfoldable pub append_to : AuditIo → Text → List ℕ → List ℕ → Files → Files × Result Text (Unit {0})
append_to io path old line files = elim io.write_line [
  | some (part, e) ↦ (insert path (old ++ part) files, err e)
  | none ↦ elim io.write_newline [
    | some e ↦ (insert path (old ++ line) files, err e)
    | none ↦
        let written = insert path (old ++ (line ++ b'\n' ∷ [])) files in
        elim io.flush [ some e ↦ (written, err e) | none ↦ (written, ok tt) ]
  ]
]

unfoldable pub append_line :
    AuditIo → Text → List ℕ → Files × Result Text (Unit {0}) → Files × Result Text (Unit {0})
unfolding append_to
append_line io path line (files, err e) = (files, err e)
append_line io path line (files, ok u) = elim io.open_file [
  | some e ↦ (files, err e)
  | none ↦ append_to io path (contents (lookup path files)) line files
]

unfoldable pub append_audit : AuditIo → Text → List ℕ → Files → Files × Result Text (Unit {0})
unfolding rotate append_line audit_file rotated_file
append_audit io instance_id line files =
    let path = audit_file instance_id in
    let rotated = rotated_file instance_id in
    let turned = rotate io path rotated files in
    let ready : Files × Result Text (Unit {0}) =
      if is_large io.metadata (lookup path files) then turned else (files, ok tt) in
    elim io.create_dir_all [ some e ↦ (files, err e) | none ↦ append_line io path line ready ]
