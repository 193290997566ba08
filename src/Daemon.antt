-- ===== src/Daemon.antt =====
-- crates/wsrx/src/cli/daemon.rs: the local daemon of `wsrx`, its pool of tunnels, the origins of web
-- pages that may control it, and its heartbeat.
pub mod Permission
mod Tests
use lab_stream_gate.Common.{
  ℕ, ◌+◌, ◌-◌, Bool, true, false, not, ◌||◌, Option, none, some, List, [], ◌∷◌, ◌++◌, ltb, ◌==◌,
  if◌then◌else◌, length, drop, retain, Result, ok, err,
}
use lab_stream_gate.Common.Text.{Text, codes, same}
use lab_stream_gate.Common.Dict.{Dict, lookup, insert, remove}
use lab_stream_gate.Http.{
  StatusCode, HttpError, Http, http_error, ok_200, accepted, created, bad_request, unauthorized,
  forbidden, not_found, internal_server_error,
}

-- `ALLOWED_ORIGINS` and `PENDING_ORIGINS`, two vectors behind locks; a panic of a holder poisons the
-- lock.
pub record Origins : Type 0 where
  pub allowed : List Text
  pub pending : List Text
  pub allowed_poisoned : Bool
  pub pending_poisoned : Bool

-- `Vec::contains`.
unfoldable pub contains_text : List Text → Text → Bool
contains_text [] s = false
contains_text (o ∷ os) s = same o s || contains_text os s

abbrev pub allowed_message : Text
allowed_message = codes "failed to lock allowed origin"

abbrev pub pending_message : Text
pending_message = codes "failed to lock origin waitlist"

-- `waitlist.retain(|o| o != &req)`.
unfoldable pub without : Text → List Text → List Text
without s os = retain (λ o. not (same o s)) os

-- The guard `if waitlist.contains(&req)` in front of it.
unfoldable pub drop_pending : Text → List Text → List Text
unfolding without contains_text
drop_pending s os = if contains_text os s then without s os else os

-- The two locks are taken one after the other.
unfoldable pub with_locks : Origins → Origins → Origins × Http StatusCode
with_locks before after =
    if before.allowed_poisoned
    then (before, err (http_error internal_server_error allowed_message))
    else if before.pending_poisoned
    then (before, err (http_error internal_server_error pending_message))
    else (after, ok ok_200)

unfoldable pub add_allowed_origin : Text → Origins → Origins × Http StatusCode
unfolding with_locks drop_pending
add_allowed_origin req s =
    with_locks s
      (record s { pending = drop_pending req s.pending; allowed = s.allowed ++ req ∷ [] })

unfoldable pub remove_allowed_origin : Text → Origins → Origins × Http StatusCode
unfolding with_locks drop_pending without
remove_allowed_origin req s =
    with_locks s
      (record s { pending = drop_pending req s.pending; allowed = without req s.allowed })

-- The write of the wait list comes after the test of the allowed origins.
unfoldable pub add_pending_origin : Text → Origins → Origins × Http StatusCode
unfolding contains_text
add_pending_origin req s =
    if s.allowed_poisoned
    then (s, err (http_error internal_server_error allowed_message))
    else if contains_text s.allowed req
    then (s, ok accepted)
    else if s.pending_poisoned
    then (s, err (http_error internal_server_error pending_message))
    else if contains_text s.pending req
    then (s, ok created)
    else (record s { pending = s.pending ++ req ∷ [] }, ok created)

-- `get_cors_status`: the origin is the text of the header, empty where it is no text.
abbrev pub cors_of : Option Text → Origins → Result StatusCode StatusCode
cors_of none s = ok accepted
cors_of (some origin) s =
    if contains_text s.allowed origin
    then ok accepted
    else if contains_text s.pending origin
    then err created
    else err forbidden

unfoldable pub get_cors_status : Option Text → Origins → Result StatusCode StatusCode
unfolding contains_text
get_cors_status origin s =
    if s.allowed_poisoned || s.pending_poisoned then err internal_server_error else cors_of origin s

-- `str::ends_with`, on scalar values.
unfoldable pub ends_with : Text → Text → Bool
ends_with s suffix =
    if ltb (length s) (length suffix)
    then false
    else same (drop (length s - length suffix) s) suffix

-- The predicate of the CORS layer on the paths that control the daemon.
unfoldable pub allow_origin : List Text → Text → Bool
unfolding ends_with
allow_origin [] origin = false
allow_origin (o ∷ os) origin = if ends_with origin o then true else allow_origin os origin

-- The middleware: a secret that is set is compared with the header `authorization`, none where the
-- header is missing or is no text.
unfoldable pub authorize : Option Text → Option Text → Result StatusCode (Unit {0})
authorize none header = ok tt
authorize (some secret) none = err unauthorized
authorize (some secret) (some value) = if same value secret then ok tt else err unauthorized

-- `struct TunnelConfig`, of crates/wsrx/src/tunnel.rs.
pub record TunnelConfig : Type 0 where
  pub local : Text
  pub remote : Text

-- How `create_tcp_listener` of crates/wsrx/src/utils.rs ends: bound to an address; or the address
-- cannot be read, is none, or cannot
-- be bound, with the texts of address and error.
pub data Listen : Type 0 where
  bound : Text → Listen
  bad_address : Listen
  no_address : Listen
  bind_failed : Text → Listen

unfoldable pub create_tcp_listener : Listen → Http Text
create_tcp_listener (bound a) = ok a
create_tcp_listener bad_address =
    err (http_error bad_request (codes "failed to parse from address"))
create_tcp_listener no_address = err (http_error bad_request (codes "failed to get socket addr"))
create_tcp_listener (bind_failed e) =
    err (http_error internal_server_error (codes "failed to bind tcp address " ++ e))

abbrev pub Pool : Type 0
Pool = Dict TunnelConfig

abbrev pub answer_of : Option Text → TunnelConfig → Http TunnelConfig
answer_of none tunnel = ok tunnel
answer_of (some e) tunnel =
    err (http_error internal_server_error (codes "Failed to serialize tunnel: " ++ e))

-- `Tunnel::new` takes the address that the listener has; the answer is the tunnel, as JSON, or the
-- error of writing that.
unfoldable pub launch_tunnel : Listen → Option Text → TunnelConfig → Pool → Pool × Http TunnelConfig
unfolding create_tcp_listener
launch_tunnel l to_string req pool = elim (create_tcp_listener l) [
  | err e ↦ (pool, err e)
  | ok a ↦
      let tunnel : TunnelConfig = record { local = a; remote = req.remote } in
      (insert a tunnel pool, answer_of to_string tunnel)
]

unfoldable pub close_tunnel : Text → Pool → Pool × Http StatusCode
close_tunnel key pool = elim (lookup key pool) [
  | none ↦ (pool, err (http_error not_found (codes "not found")))
  | some t ↦ (remove key pool, ok ok_200)
]

-- One round of `heartbeat_watchdog`: whether the daemon exits. `age` is the number of whole seconds
-- since the last heartbeat, zero if the clock went back; it is none if the lock is poisoned.
unfoldable pub heartbeat_expired : ℕ → Option ℕ → Bool
heartbeat_expired interval none = false
heartbeat_expired interval (some age) = ltb interval age
