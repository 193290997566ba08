-- ===== src/Gateway/Registry/Safety.antt =====
-- What holds of the registry after any history of operations.
use lab_stream_gate.Common.{
  ℕ, ◌≤◌, ◌≡◌, sym, ap, subst, ◌∙◌, inl, inr, false, none, some, List, arith, if◌then◌else◌, length,
  All, ok, Option-cases, Bool-cases, Result-cases,
}
use lab_stream_gate.Common.Text.{Text, same}
use lab_stream_gate.Common.Dict.{
  lookup, insert, remove, IsDict, lookup-insert, lookup-remove, insert-IsDict, remove-IsDict,
}
use lab_stream_gate.Gateway.{TunnelRecord, TunnelRequest, is_past, is_expired, GlobalState}
use lab_stream_gate.Net.{AddrText}
use lab_stream_gate.Gateway.Validate.Keys.{IsKeyChar, validate_key_iff}
use lab_stream_gate.Gateway.Validate.Targets.{Names, OneOf, validate_target_iff}
use lab_stream_gate.Gateway.Persist.{RegistryJson, PersistIo}
use lab_stream_gate.Gateway.Registry.{
  record_of, check_request, launch_tunnel, remove_expired, get_tunnels, close_tunnel, active_record,
}
use lab_stream_gate.Gateway.Registry.Laws.{
  live, SameBesides, launch_tunnel_lem, close_tunnel_lem, active_record_lem, remove_expired_lem,
}

-- A key of 16 to 128 URL-safe characters.
abbrev pub IsKey : Text → Type 0
IsKey k = (16 ≤ length k) × (length k ≤ 128) × All IsKeyChar k

-- The target names a host of the list.
abbrev pub IsPermitted : AddrText → List Text → Text → Type 0
IsPermitted net allowed target = (host : Text) × Names net target host × OneOf host allowed

-- One entry a key, and each with a proper key and a permitted target.
pub record IsSafe (net : AddrText) (s : GlobalState) : Type 0 where
  pub one_entry : IsDict s.connections
  pub safe_entries :
      (k : Text) (r : TunnelRecord)
      → lookup k s.connections ≡ some r
      → IsKey k × IsPermitted net s.allowed_target_hosts r.target

-- One operation of the gateway on its registry. The clock and the file system are free.
pub data Step (net : AddrText) (json : RegistryJson) : GlobalState → GlobalState → Type 0 where
  launches :
      (io : PersistIo) (now : ℕ) (req : TunnelRequest) (s : GlobalState)
      → Step net json s (launch_tunnel net json io now req s).0
  lists :
      (io : PersistIo) (now : ℕ) (s : GlobalState) → Step net json s (get_tunnels json io now s).0
  closes :
      (io : PersistIo) (key : Text) (s : GlobalState)
      → Step net json s (close_tunnel json io key s).0
  looks_up :
      (io : PersistIo) (now : ℕ) (key : Text) (s : GlobalState)
      → Step net json s (active_record json io now key s).0
  cleans_up :
      (io : PersistIo) (now : ℕ) (s : GlobalState) → Step net json s (remove_expired json io now s)

pub data Reach (net : AddrText) (json : RegistryJson) (s : GlobalState) : GlobalState → Type 0 where
  here : Reach net json s s
  next : {t u : GlobalState} → Reach net json s t → Step net json t u → Reach net json s u

pub check_request-ok :
    (net : AddrText) (now : ℕ) (allowed : List Text) (req : TunnelRequest)
    → check_request net now allowed req ≡ ok tt
    → IsKey req.key × IsPermitted net allowed req.target × (is_past req.expires_at now ≡ false)
unfolding check_request
check_request-ok net now allowed req h = (
  (validate_key_iff req.key).0.0 (ground arith),
  (validate_target_iff net req.target allowed).0.0 (ground arith),
  ground arith,
)

-- Safety carries over to a state whose registry has only entries that are safe.
IsSafe-transfer :
    (net : AddrText) (s t : GlobalState)
    → SameBesides s t
    → IsDict t.connections
    → ((k : Text) (r : TunnelRecord)
        → lookup k t.connections ≡ some r
        → IsKey k × IsPermitted net s.allowed_target_hosts r.target)
    → IsSafe net t
IsSafe-transfer net s t e d h =
    let a : t.allowed_target_hosts ≡ s.allowed_target_hosts = ap (λ x. x.allowed_target_hosts) e in
    record { one_entry = d; safe_entries = λ k r g. rw a (h k r g) }

IsSafe-insert :
    (net : AddrText) (s t : GlobalState) (k : Text) (v : TunnelRecord)
    → IsSafe net s
    → SameBesides s t
    → t.connections ≡ insert k v s.connections
    → IsKey k
    → IsPermitted net s.allowed_target_hosts v.target
    → IsSafe net t
IsSafe-insert net s t k v f e c key permitted =
    IsSafe-transfer net s t e (subst IsDict (sym c) (insert-IsDict k v s.connections f.one_entry))
      λ j r g. entry j r (sym (lookup-insert k j v s.connections) ∙ ap (lookup j) (sym c) ∙ g)
  where
    entry :
        (j : Text) (r : TunnelRecord)
        → (if same k j then some v else lookup j s.connections) ≡ some r
        → IsKey j × IsPermitted net s.allowed_target_hosts r.target
    entry j r g = elim (Bool-cases (same k j)) [
      | inr n ↦ f.safe_entries j r (rw n at g)
      | inl y ↦
          let kj : k ≡ j = ground arith in
          let vr : v ≡ r = ground arith in
          (
            subst IsKey kj key,
            subst (λ x. IsPermitted net s.allowed_target_hosts x.target) vr permitted,
          )
    ]

IsSafe-remove :
    (net : AddrText) (s t : GlobalState) (k : Text)
    → IsSafe net s
    → SameBesides s t
    → t.connections ≡ remove k s.connections
    → IsSafe net t
IsSafe-remove net s t k f e c =
    IsSafe-transfer net s t e (subst IsDict (sym c) (remove-IsDict k s.connections f.one_entry))
      λ j r g.
        f.safe_entries j r (
          entry j r (sym (lookup-remove k j s.connections f.one_entry) ∙ ap (lookup j) (sym c) ∙ g))
  where
    entry :
        (j : Text) (r : TunnelRecord)
        → (if same k j then none else lookup j s.connections) ≡ some r
        → lookup j s.connections ≡ some r
    entry j r g = ground arith

launch_tunnel-IsSafe :
    (net : AddrText) (json : RegistryJson) (io : PersistIo) (now : ℕ) (req : TunnelRequest)
    (s : GlobalState)
    → IsSafe net s
    → IsSafe net (launch_tunnel net json io now req s).0
launch_tunnel-IsSafe net json io now req s f =
    elim (Result-cases (check_request net now s.allowed_target_hosts req)) [
      | inr (e, h) ↦
          subst (λ p. IsSafe net p.0) (sym ((launch_tunnel_lem net json io now req s).0 e h)) f
      | inl (u, h) ↦
          let (c, e, _) = (launch_tunnel_lem net json io now req s).1 h in
          let (key, permitted, _) = check_request-ok net now s.allowed_target_hosts req h in
          IsSafe-insert net s _ req.key (record_of req) f e c key permitted
    ]

close_tunnel-IsSafe :
    (net : AddrText) (json : RegistryJson) (io : PersistIo) (key : Text) (s : GlobalState)
    → IsSafe net s
    → IsSafe net (close_tunnel json io key s).0
close_tunnel-IsSafe net json io key s f = elim (Option-cases (lookup key s.connections)) [
  | inl h ↦ subst (λ p. IsSafe net p.0) (sym ((close_tunnel_lem json io key s).0 h)) f
  | inr (r, h) ↦
      let (c, e, _) = (close_tunnel_lem json io key s).1 r h in IsSafe-remove net s _ key f e c
]

active_record-IsSafe :
    (net : AddrText) (json : RegistryJson) (io : PersistIo) (now : ℕ) (key : Text) (s : GlobalState)
    → IsSafe net s
    → IsSafe net (active_record json io now key s).0
active_record-IsSafe net json io now key s f =
    let (alive, absent, expired) = active_record_lem json io now key s in
    elim (Option-cases (lookup key s.connections)) [
      | inl h ↦ subst (λ p. IsSafe net p.0) (sym (absent h)) f
      | inr (r, h) ↦ elim (Bool-cases (is_expired r now)) [
        | inr x ↦ subst (λ p. IsSafe net p.0) (sym (alive r (ground arith))) f
        | inl x ↦ let (_, c, e) = expired r h x in IsSafe-remove net s _ key f e c
      ]
    ]

remove_expired-IsSafe :
    (net : AddrText) (json : RegistryJson) (io : PersistIo) (now : ℕ) (s : GlobalState)
    → IsSafe net s
    → IsSafe net (remove_expired json io now s)
remove_expired-IsSafe net json io now s f =
    let (looks, e, d) = remove_expired_lem json io now s f.one_entry in
    IsSafe-transfer net s _ e d λ k r g. f.safe_entries k r (entry k r (sym (looks k) ∙ g))
  where
    entry : (k : Text) (r : TunnelRecord) → live s now k ≡ some r → lookup k s.connections ≡ some r
    entry k r g = ground arith

Step-IsSafe :
    {net : AddrText} {json : RegistryJson} {s t : GlobalState}
    → Step net json s t
    → IsSafe net s
    → IsSafe net t
unfolding get_tunnels
Step-IsSafe {net} {json} (launches io now req s) f = launch_tunnel-IsSafe net json io now req s f
Step-IsSafe {net} {json} (lists io now s) f = remove_expired-IsSafe net json io now s f
Step-IsSafe {net} {json} (closes io key s) f = close_tunnel-IsSafe net json io key s f
Step-IsSafe {net} {json} (looks_up io now key s) f = active_record-IsSafe net json io now key s f
Step-IsSafe {net} {json} (cleans_up io now s) f = remove_expired-IsSafe net json io now s f

-- From a safe state every history of operations leads to safe states: each registered key is 16 to
-- 128 URL-safe characters long, and each registered target names an allowed host.
pub Reach-IsSafe :
    {net : AddrText} {json : RegistryJson} {s t : GlobalState}
    → IsSafe net s
    → Reach net json s t
    → IsSafe net t
Reach-IsSafe f here = f
Reach-IsSafe f (next r st) = Step-IsSafe st (Reach-IsSafe f r)

-- Whatever has happened since a safe state, the record that `active_record` gives a connection has
-- a target that names an allowed host, and has not expired.
pub active_record-IsPermitted :
    (net : AddrText) (json : RegistryJson) (io : PersistIo) (now : ℕ) (key : Text)
    (s t u : GlobalState) (r : TunnelRecord)
    → IsSafe net s
    → Reach net json s t
    → active_record json io now key t ≡ (u, ok r)
    → IsPermitted net t.allowed_target_hosts r.target × (is_expired r now ≡ false)
unfolding active_record
active_record-IsPermitted net json io now key s t u r f reach h =
    ((IsSafe.safe_entries (Reach-IsSafe f reach) key r (ground arith)).1, ground arith)
