-- ===== src/Gateway.antt =====
-- crates/wsrx/src/cli/serve.rs: the state of the platform gateway, its records and requests.
-- Times are seconds since the epoch and come in as arguments (`unix_timestamp`).
pub mod Validate
pub mod Auth
pub mod Persist
pub mod Registry
pub mod Traffic
pub mod Session
pub mod Router
pub mod Launch
pub mod Lifetime
mod Samples
mod Tests
use lab_stream_gate.Common.{ℕ, Bool, true, false, Option, none, some, List, leb}
use lab_stream_gate.Common.Text.{Text}
use lab_stream_gate.Common.Dict.{Dict}

-- `struct TunnelRecord`.
pub record TunnelRecord : Type 0 where
  pub target : Text
  pub expires_at : Option ℕ
  pub instance_id : Text
  pub challenge_id : Text
  pub user_id : Text
  pub competition_id : Option Text
  pub capture : Bool

-- `is_some_and(|expiry| expiry <= now)`.
abbrev pub is_past : Option ℕ → ℕ → Bool
is_past none now = false
is_past (some expiry) now = leb expiry now

unfoldable pub is_expired : TunnelRecord → ℕ → Bool
is_expired r now = is_past r.expires_at now

-- `struct TunnelRequest`, the body of a POST to /pool.
pub record TunnelRequest : Type 0 where
  pub key : Text
  pub target : Text
  pub expires_at : Option ℕ
  pub instance_id : Text
  pub challenge_id : Text
  pub user_id : Text
  pub competition_id : Option Text
  pub capture : Bool

-- A path, with what `Path::parent` returns for it.
pub record FilePath : Type 0 where
  pub path : Text
  pub parent : Option Text
  pub is_tmp : Bool

-- What stands on the disk under the registry's path and, unless that is the same file, under the same
-- path with the extension `tmp`.
pub record Disk : Type 0 where
  pub file : Option (List ℕ)
  pub temporary : Option (List ℕ)

-- `per_tunnel_connections`: a mutex, which a panic of its holder poisons, round the open connections
-- of each key.
pub record Counts : Type 0 where
  pub poisoned : Bool
  pub counts : Dict ℕ

-- `struct GlobalState`, with the disk that `state_file` names; `connection_slots` holds the permits
-- that are left. The lock `audit_lock` has no content.
pub record GlobalState : Type 0 where
  pub secret : Text
  pub connections : Dict TunnelRecord
  pub state_file : Option FilePath
  pub disk : Disk
  pub allowed_target_hosts : List Text
  pub connection_slots : ℕ
  pub capture_root : Text
  pub max_capture_bytes : ℕ
  pub per_tunnel_connections : Counts
  pub max_connections_per_tunnel : ℕ
  pub connection_timeout : ℕ
