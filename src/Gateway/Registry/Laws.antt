-- ===== src/Gateway/Registry/Laws.antt =====
-- The registry as a function from keys to live records, and what each operation does to it.
use lab_stream_gate.Common.{
  ℕ, ◌≡◌, refl, sym, ap, subst, ◌∙◌, ◌⊎◌, inl, inr, true, not, Option, none, some, arith, ok, err,
}
use lab_stream_gate.Common.Text.{Text}
use lab_stream_gate.Common.Dict.{
  Dict, lookup, insert, remove, retain_values, IsDict, option_keep, lookup-retain_values,
  retain_values-IsDict,
}
use lab_stream_gate.Http.{
  HttpError, Http, http_error, created, no_content, not_found, gone, internal_server_error,
}
use lab_stream_gate.Gateway.{TunnelRecord, TunnelRequest, is_expired, GlobalState}
use lab_stream_gate.Net.{AddrText}
use lab_stream_gate.Gateway.Persist.{
  RegistryJson, PersistIo, persist_registry, no_file, saved, refused, overwritten,
  persist_registry-PersistEffect,
}
use lab_stream_gate.Gateway.Registry.{
  record_of, check_request, launch_tunnel, remove_expired, close_tunnel, active_record,
  not_found_message, expired_message, after_persist,
}

-- The record that the gateway would serve for a key at a time.
abbrev pub live : GlobalState → ℕ → Text → Option TunnelRecord
live s now k = option_keep (λ r. not (is_expired r now)) (lookup k s.connections)

-- The two states agree in all but the registry and the disk.
abbrev pub SameBesides : GlobalState → GlobalState → Type 0
SameBesides s t = t ≡ record s { connections = t.connections; disk = t.disk }

-- Persisting keeps the registry, whatever the file system answers; its failure has status 500.
pub persist_registry-keeps :
    (json : RegistryJson) (io : PersistIo) (s : GlobalState)
    → let (t, r) = persist_registry json io s in
      (t.connections ≡ s.connections)
      × SameBesides s t
      × ((e : HttpError) → r ≡ err e → e.status ≡ internal_server_error)
persist_registry-keeps json io s = elim (persist_registry-PersistEffect json io s) [
  | no_file n e ↦ (ap (λ p. p.0.connections) e, ground arith, λ x f. ground arith)
  | saved p w n v e ↦ (ap (λ p. p.0.connections) e, ground arith, λ x f. ground arith)
  | refused p l m n e ↦ (ap (λ p. p.0.connections) e, ground arith, λ x f. ground arith)
  | overwritten p l m n u e ↦ (ap (λ p. p.0.connections) e, ground arith, λ x f. ground arith)
]

-- An operation that changed the registry to `m` and then persisted: the registry is `m`, nothing
-- else but the disk changed, and the result is `a` or a failure with status 500.
abbrev pub Changed {ℓ} :
    {A : Type ℓ} → GlobalState → Dict TunnelRecord → A → GlobalState × Http A → Type ℓ
Changed s m a p =
    (p.0.connections ≡ m)
    × SameBesides s p.0
    × ((p.1 ≡ ok a) ⊎ ((e : HttpError) × (p.1 ≡ err e) × (e.status ≡ internal_server_error)))

after_persist-Changed {ℓ} :
    {A : Type ℓ} (json : RegistryJson) (io : PersistIo) (s : GlobalState) (m : Dict TunnelRecord)
    (a : A) (p : GlobalState × Http A)
    → p ≡ after_persist (persist_registry json io (record s { connections = m })) a
    → Changed s m a p
after_persist-Changed json io s m a p h =
    elim (persist_registry-PersistEffect json io (record s { connections = m })) [
      | no_file n e ↦ (ground arith, ground arith, inl (ground arith))
      | saved q w n v e ↦ (ground arith, ground arith, inl (ground arith))
      | refused q l message n e ↦ (
        ground arith,
        ground arith,
        inr (http_error internal_server_error message, ground arith, refl),
      )
      | overwritten q l message n u e ↦ (
        ground arith,
        ground arith,
        inr (http_error internal_server_error message, ground arith, refl),
      )
    ]

-- `launch_tunnel` with a request that fails a check answers with that check's error and changes
-- nothing. Any other request binds its key to its record, and the answer is 201 with the record or,
-- if persisting fails, status 500.
pub launch_tunnel_lem :
    (net : AddrText) (json : RegistryJson) (io : PersistIo) (now : ℕ) (req : TunnelRequest)
    (s : GlobalState)
    → ((e : HttpError)
        → check_request net now s.allowed_target_hosts req ≡ err e
        → launch_tunnel net json io now req s ≡ (s, err e))
      × (check_request net now s.allowed_target_hosts req ≡ ok tt
          → Changed s
              (insert req.key (record_of req) s.connections)
              (created, record_of req)
              (launch_tunnel net json io now req s))
unfolding launch_tunnel
launch_tunnel_lem net json io now req s =
    (λ e h. ground arith, λ h. after_persist-Changed json io s _ _ _ (ground arith))

-- `close_tunnel` on a key without a record answers 404 and changes nothing. On any other key it
-- removes the record, and the answer is 204 or, if persisting fails, status 500.
pub close_tunnel_lem :
    (json : RegistryJson) (io : PersistIo) (key : Text) (s : GlobalState)
    → (lookup key s.connections ≡ none
        → close_tunnel json io key s ≡ (s, err (http_error not_found not_found_message)))
      × ((r : TunnelRecord)
          → lookup key s.connections ≡ some r
          → Changed s (remove key s.connections) no_content (close_tunnel json io key s))
unfolding close_tunnel
close_tunnel_lem json io key s =
    (λ h. ground arith, λ r h. after_persist-Changed json io s _ _ _ (ground arith))

-- `active_record` gives the live record of the key and changes nothing; it answers 410 for an
-- expired record, which it removes, and 404 for a key that has none.
pub active_record_lem :
    (json : RegistryJson) (io : PersistIo) (now : ℕ) (key : Text) (s : GlobalState)
    → ((r : TunnelRecord) → live s now key ≡ some r → active_record json io now key s ≡ (s, ok r))
      × (lookup key s.connections ≡ none
          → active_record json io now key s ≡ (s, err (http_error not_found not_found_message)))
      × ((r : TunnelRecord)
          → lookup key s.connections ≡ some r
          → is_expired r now ≡ true
          → let (t, result) = active_record json io now key s in
            (result ≡ err (http_error gone expired_message))
            × (t.connections ≡ remove key s.connections)
            × SameBesides s t)
unfolding active_record
active_record_lem json io now key s = (
  λ r h. ground arith,
  λ h. ground arith,
  λ r h x.
      let m = remove key s.connections in
      let (kept, others, _) = persist_registry-keeps json io (record s { connections = m }) in
      let e : (active_record json io now key s).0
          ≡ (persist_registry json io (record s { connections = m })).0 =
        ground arith in
      (ground arith, ap (λ q. q.connections) e ∙ kept, ground arith),
)

-- From a registry with one entry for a key, `remove_expired` leaves exactly the records that are
-- live, with one entry for a key, and nothing else but the disk has changed.
pub remove_expired_lem :
    (json : RegistryJson) (io : PersistIo) (now : ℕ) (s : GlobalState)
    → IsDict s.connections
    → ((k : Text) → lookup k (remove_expired json io now s).connections ≡ live s now k)
      × SameBesides s (remove_expired json io now s)
      × IsDict (remove_expired json io now s).connections
unfolding remove_expired
remove_expired_lem json io now s d =
    let m = retain_values (λ r. not (is_expired r now)) s.connections in
    let (kept, others, _) = persist_registry-keeps json io (record s { connections = m }) in
    let same_map : (remove_expired json io now s).connections ≡ m = ground arith in
    (
      λ k.
          ap (lookup k) same_map
          ∙ lookup-retain_values (λ r. not (is_expired r now)) k s.connections d,
      ground arith,
      subst IsDict (sym same_map)
          (retain_values-IsDict (λ r. not (is_expired r now)) s.connections d),
    )
