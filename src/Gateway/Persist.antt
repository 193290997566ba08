-- ===== src/Gateway/Persist.antt =====
-- crates/wsrx/src/cli/serve.rs: `load_registry`, `persist_registry` and `internal_io_error`.
use lab_stream_gate.Common.{
  ℕ, ◌≡◌, refl, sym, subst, ◌⊎◌, inl, inr, not, Bool, true, false, Option, none, some, List, [],
  ◌++◌, arith, Result, ok, err, Option-cases, Result-cases,
}
use lab_stream_gate.Common.Text.{Text, codes}
use lab_stream_gate.Common.Dict.{
  Dict, lookup, retain_values, IsDict, option_keep, lookup-retain_values,
}
use lab_stream_gate.Http.{Http, http_error, internal_server_error}
use lab_stream_gate.Gateway.{TunnelRecord, is_expired, Disk, FilePath, GlobalState}

-- `serde_json` on the registry. What it documents: a map that is written reads back as the same map,
-- its entries perhaps in another order.
pub record RegistryJson : Type 0 where
  pub to_vec : Dict TunnelRecord → Result Text (List ℕ)
  pub from_slice : List ℕ → Result Text (Dict TunnelRecord)
  pub from_slice-IsDict :
      (data_bytes : List ℕ) (m : Dict TunnelRecord) → from_slice data_bytes ≡ ok m → IsDict m
  pub from_slice-to_vec :
      (m : Dict TunnelRecord) (written : List ℕ)
      → IsDict m
      → to_vec m ≡ ok written
      → (n : Dict TunnelRecord) × (from_slice written ≡ ok n)
        × ((k : Text) → lookup k n ≡ lookup k m)

-- How a write to a file ends: whole, or with an error and whatever is then in the file.
pub data WriteOutcome : Type 0 where
  whole : WriteOutcome
  torn : Option (List ℕ) → Text → WriteOutcome

-- What the file system answers to one run of `persist_registry`; `none` is success.
pub record PersistIo : Type 0 where
  pub create_dir_all : Option Text
  pub write : WriteOutcome
  pub rename : Option Text

abbrev pub serialize_message : Text
serialize_message = codes "failed to serialize tunnel registry: "

unfoldable pub io_message : Text
io_message = codes "failed to persist tunnel registry: "

unfoldable pub internal_io_error {ℓ} : {A : Type ℓ} → Text → Http A
internal_io_error e = err (http_error internal_server_error (io_message ++ e))

-- What the file with the extension `tmp` holds; `same_file` says whether that is the registry's file.
abbrev set_temporary : Bool → Option (List ℕ) → Disk → Disk
set_temporary true content disk = record disk { file = content }
set_temporary false content disk = record disk { temporary = content }

rename_temporary : Bool → Option Text → Disk → List ℕ → Disk × Http (Unit {0})
unfolding internal_io_error
rename_temporary same_file none disk written =
    (record disk { file = some written; temporary = none }, ok tt)
rename_temporary same_file (some e) disk written =
    (set_temporary same_file (some written) disk, internal_io_error e)

write_temporary : PersistIo → WriteOutcome → Bool → Disk → List ℕ → Disk × Http (Unit {0})
unfolding rename_temporary
write_temporary io whole same_file disk written = rename_temporary same_file io.rename disk written
write_temporary io (torn left e) same_file disk written =
    (set_temporary same_file left disk, internal_io_error e)

write_registry : RegistryJson → PersistIo → Bool → Disk → Dict TunnelRecord → Disk × Http (Unit {0})
unfolding write_temporary
write_registry json io same_file disk registry = elim (json.to_vec registry) [
  | ok written ↦ write_temporary io io.write same_file disk written
  | err e ↦ (disk, err (http_error internal_server_error (serialize_message ++ e)))
]

-- The error of `create_dir_all`, which is called only if the path has a parent.
abbrev parent_error : Option Text → Option Text → Option Text
parent_error none e = none
parent_error (some parent) e = e

unfoldable pub persist_at :
    RegistryJson → PersistIo → FilePath → Disk → Dict TunnelRecord → Disk × Http (Unit {0})
unfolding write_registry
persist_at json io path disk registry = elim (parent_error path.parent io.create_dir_all) [
  | some e ↦ (disk, internal_io_error e)
  | none ↦ write_registry json io path.is_tmp disk registry
]

-- The state after `persist_registry`, and its result.
unfoldable pub persist_registry :
    RegistryJson → PersistIo → GlobalState → GlobalState × Http (Unit {0})
unfolding persist_at
persist_registry json io state = elim state.state_file [
  | none ↦ (state, ok tt)
  | some path ↦
      let (disk, result) = persist_at json io path state.disk state.connections in
      (record state { disk = disk }, result)
]

-- What reading the file gives.
pub data ReadOutcome : Type 0 where
  contents : List ℕ → ReadOutcome
  missing : ReadOutcome
  failed : Text → ReadOutcome

unfoldable pub load_registry : RegistryJson → ℕ → Option FilePath → ReadOutcome → Dict TunnelRecord
load_registry json now none read = []
load_registry json now (some path) (contents written) = elim (json.from_slice written) [
  | ok registry ↦ retain_values (λ r. not (is_expired r now)) registry
  | err e ↦ []
]
load_registry json now (some path) missing = []
load_registry json now (some path) (failed e) = []

-- Either the file holds the whole of the new contents and no temporary file is left, and the call
-- succeeds; or the file is as before, and the call fails with status 500; or the call fails so and the
-- file itself, which has the extension `tmp`, has been written to.
abbrev DiskEffect : RegistryJson → Bool → Disk → Dict TunnelRecord → Disk × Http (Unit {0}) → Type 0
DiskEffect json same_file disk registry r =
    ((written : List ℕ) × (json.to_vec registry ≡ ok written)
      × (r ≡ (record { file = some written; temporary = none }, ok tt)))
    ⊎ ((left : Option (List ℕ)) × (message : Text) × (r ≡ (
      record { file = disk.file; temporary = left },
      err (http_error internal_server_error message),
    )))
    ⊎ ((left : Option (List ℕ)) × (message : Text) × (same_file ≡ true)
        × (r ≡ (
          record { file = left; temporary = disk.temporary },
          err (http_error internal_server_error message),
        )))

set_temporary-DiskEffect :
    (json : RegistryJson) (same_file : Bool) (disk : Disk) (registry : Dict TunnelRecord)
    (left : Option (List ℕ)) (message : Text)
    → DiskEffect json same_file disk registry
        (set_temporary same_file left disk, err (http_error internal_server_error message))
set_temporary-DiskEffect json true disk registry left message =
    inr (inr (left, message, refl, refl))
set_temporary-DiskEffect json false disk registry left message = inr (inl (left, message, refl))

write_temporary-DiskEffect :
    (json : RegistryJson) (io : PersistIo) (same_file : Bool) (disk : Disk)
    (registry : Dict TunnelRecord) (written : List ℕ) (w : WriteOutcome) (e : Option Text)
    → json.to_vec registry ≡ ok written
    → io.rename ≡ e
    → DiskEffect json same_file disk registry (write_temporary io w same_file disk written)
unfolding write_temporary internal_io_error
write_temporary-DiskEffect json io same_file disk registry written (torn left m) e v h =
    set_temporary-DiskEffect json same_file disk registry left (io_message ++ m)
write_temporary-DiskEffect json io same_file disk registry written whole none v h =
    rw h (inl (written, v, refl))
write_temporary-DiskEffect json io same_file disk registry written whole (some m) v h =
    rw h (set_temporary-DiskEffect json same_file disk registry (some written) (io_message ++ m))

persist_at-DiskEffect :
    (json : RegistryJson) (io : PersistIo) (path : FilePath) (disk : Disk)
    (registry : Dict TunnelRecord)
    → DiskEffect json path.is_tmp disk registry (persist_at json io path disk registry)
unfolding persist_at internal_io_error
persist_at-DiskEffect json io path disk registry =
    elim (Option-cases (parent_error path.parent io.create_dir_all)) [
      | inr (e, h) ↦ inr (inl (disk.temporary, io_message ++ e, ground arith))
      | inl h ↦ elim (Result-cases (json.to_vec registry)) [
        | inl (written, v) ↦ subst (DiskEffect json path.is_tmp disk registry) (sym (steps h v)) (
            write_temporary-DiskEffect json io path.is_tmp disk registry written io.write io.rename
              v refl)
        | inr (e, v) ↦ inr (inl (disk.temporary, serialize_message ++ e, ground arith))
      ]
    ]
  where
    steps :
        {written : List ℕ}
        → parent_error path.parent io.create_dir_all ≡ none
        → json.to_vec registry ≡ ok written
        → persist_at json io path disk registry
          ≡ write_temporary io io.write path.is_tmp disk written
    steps h v = ground arith

-- The outcomes of persisting, each with the state after it.
pub data PersistEffect (json : RegistryJson) (s : GlobalState) (r : GlobalState × Http (Unit {0}))
    : Type 0 where
  no_file : s.state_file ≡ none → r ≡ (s, ok tt) → PersistEffect json s r
  saved :
      (path : FilePath) (written : List ℕ)
      → s.state_file ≡ some path
      → json.to_vec s.connections ≡ ok written
      → r ≡ (record s { disk = record { file = some written; temporary = none } }, ok tt)
      → PersistEffect json s r
  refused :
      (path : FilePath) (left : Option (List ℕ)) (message : Text)
      → s.state_file ≡ some path
      → r ≡ (
        record s { disk = record { file = s.disk.file; temporary = left } },
        err (http_error internal_server_error message),
      )
      → PersistEffect json s r
  overwritten :
      (path : FilePath) (left : Option (List ℕ)) (message : Text)
      → s.state_file ≡ some path
      → path.is_tmp ≡ true
      → r ≡ (
        record s { disk = record { file = left; temporary = s.disk.temporary } },
        err (http_error internal_server_error message),
      )
      → PersistEffect json s r

-- Persisting changes nothing but the disk. Without a state file it succeeds and changes nothing.
-- With one, either the file then holds the whole of the serialized registry, no temporary file is
-- left and the call succeeds, or the file is as it was and the call fails with status 500; but a call
-- that fails so may have written to the file if its own extension is `tmp`, that of the temporary file.
pub persist_registry-PersistEffect :
    (json : RegistryJson) (io : PersistIo) (s : GlobalState)
    → PersistEffect json s (persist_registry json io s)
unfolding persist_registry
persist_registry-PersistEffect json io s = elim (Option-cases s.state_file) [
  | inl h ↦ no_file h (ground arith)
  | inr (path, h) ↦ elim (persist_at-DiskEffect json io path s.disk s.connections) [
    | inl (written, v, e) ↦ saved path written h v (ground arith)
    | inr (inl (left, message, e)) ↦ refused path left message h (ground arith)
    | inr (inr (left, message, t, e)) ↦ overwritten path left message h t (ground arith)
  ]
]

-- A file system without faults.
abbrev pub faultless : PersistIo
faultless = record { create_dir_all = none; write = whole; rename = none }

pub persist_registry-faultless :
    (json : RegistryJson) (s : GlobalState) (path : FilePath) (written : List ℕ)
    → s.state_file ≡ some path
    → json.to_vec s.connections ≡ ok written
    → persist_registry json faultless s
      ≡ (record s { disk = record { file = some written; temporary = none } }, ok tt)
unfolding persist_registry persist_at
persist_registry-faultless json s path written f v = elim (Option-cases path.parent) [
  | inl n ↦ ground arith
  | inr (parent, n) ↦ ground arith
]

-- Loading what was written at any later time gives, for each key, the record that was written for
-- it, unless it has expired.
pub load_registry-to_vec :
    (json : RegistryJson) (m : Dict TunnelRecord) (path : FilePath) (written : List ℕ) (now : ℕ)
    (k : Text)
    → IsDict m
    → json.to_vec m ≡ ok written
    → lookup k (load_registry json now (some path) (contents written))
      ≡ option_keep (λ r. not (is_expired r now)) (lookup k m)
unfolding load_registry
load_registry-to_vec json m path written now k d v =
    let (n, back, same) = json.from_slice-to_vec m written d v in
    rw (back, load_registry)
      (rw (
        lookup-retain_values (λ r. not (is_expired r now)) k n
            (json.from_slice-IsDict written n back),
        same k,
      ))

-- What was persisted is restored: if a call of `persist_registry` with a state file, on a registry
-- with one entry for a key, succeeds, then the file is there, and loading it at any later time
-- gives, for each key, the record that the registry had for it, unless that has expired by then.
pub load-persist_registry :
    (json : RegistryJson) (io : PersistIo) (s t : GlobalState) (path : FilePath) (now : ℕ)
    → IsDict s.connections
    → s.state_file ≡ some path
    → persist_registry json io s ≡ (t, ok tt)
    → (written : List ℕ) × (t.disk.file ≡ some written)
      × ((k : Text)
          → lookup k (load_registry json now (some path) (contents written))
            ≡ option_keep (λ r. not (is_expired r now)) (lookup k s.connections))
unfolding load_registry
load-persist_registry json io s t path now d f h = elim (persist_registry-PersistEffect json io s) [
  | no_file n e ↦ absurd (cc)
  | refused p left message g e ↦ absurd (cc)
  | overwritten p left message g u e ↦ absurd (cc)
  | saved p written g v e ↦
      (written, ground arith, λ k. load_registry-to_vec json s.connections path written now k d v)
]
