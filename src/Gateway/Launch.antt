-- ===== src/Gateway/Launch.antt =====
-- crates/wsrx/src/cli/serve.rs: the checks of `launch` on its configuration and the state it starts
-- with; and `default_capture_root` of crates/wsrx/src/cli/capture.rs.
use lab_stream_gate.Common.{
  ℕ, max, Option, none, some, List, [], leb, if◌then◌else◌, length, is_empty, false, Result, ok,
  err,
}
use lab_stream_gate.Common.Text.{Text, codes, bytes}
use lab_stream_gate.Gateway.{FilePath, Disk, GlobalState}
use lab_stream_gate.Gateway.Validate.{parse_allowed_hosts}
use lab_stream_gate.Gateway.Persist.{RegistryJson, ReadOutcome, load_registry}

-- The arguments of `launch` that reach the state, and the two environment variables that it reads.
pub record Config : Type 0 where
  pub secret : Option Text
  pub admin_token : Option Text
  pub gateway_admin_token : Option Text
  pub state_file : Option FilePath
  pub allowed_target_hosts : List Text
  pub max_connections : ℕ
  pub capture_root : Option Text
  pub max_capture_bytes : ℕ
  pub max_connections_per_tunnel : ℕ
  pub connection_timeout_seconds : ℕ

-- Why `launch` refuses to start.
pub data Refusal : Type 0 where
  no_secret no_target_host : Refusal

-- `Option::or`, and `unwrap_or`.
abbrev pub or {ℓ} : {A : Type ℓ} → Option A → Option A → Option A
or none b = b
or (some a) b = some a

abbrev pub unwrap_or {ℓ} : {A : Type ℓ} → Option A → A → A
unwrap_or none b = b
unwrap_or (some a) b = a

unfoldable pub default_capture_root : Option FilePath → Text
default_capture_root none = codes "/var/lib/labstreamgate"
default_capture_root (some file) = unwrap_or file.parent (codes "/var/lib/labstreamgate")

-- The state of a gateway with a secret and hosts; `read` is what reading the state file gives.
unfoldable pub started :
    RegistryJson → ℕ → Config → Disk → ReadOutcome → Text → List Text → GlobalState
unfolding load_registry default_capture_root
started json now config disk read secret hosts = record {
  secret = secret;
  connections = load_registry json now config.state_file read;
  state_file = config.state_file;
  disk = disk;
  allowed_target_hosts = hosts;
  connection_slots = max config.max_connections 1;
  capture_root = unwrap_or config.capture_root (default_capture_root config.state_file);
  max_capture_bytes = config.max_capture_bytes;
  per_tunnel_connections = record { poisoned = false; counts = [] };
  max_connections_per_tunnel = max config.max_connections_per_tunnel 1;
  connection_timeout = max config.connection_timeout_seconds 1;
}

-- With a secret, if there is one.
unfoldable pub launch_with :
    RegistryJson → ℕ → Config → Disk → ReadOutcome → Option Text → Result Refusal GlobalState
unfolding started parse_allowed_hosts
launch_with json now config disk read none = err no_secret
launch_with json now config disk read (some secret) =
    let hosts = parse_allowed_hosts config.allowed_target_hosts in
    if leb 32 (length (bytes secret))
    then if is_empty hosts
      then err no_target_host
      else ok (started json now config disk read secret hosts)
    else err no_secret

-- `launch`, up to binding its port.
unfoldable pub launch : RegistryJson → ℕ → Config → Disk → ReadOutcome → Result Refusal GlobalState
unfolding launch_with
launch json now config disk read =
    launch_with json now config disk read
      (or config.secret (or config.admin_token config.gateway_admin_token))
