-- ===== src/Gateway/Validate.antt =====
-- crates/wsrx/src/cli/serve.rs: `validate_key`, `validate_target` and `parse_allowed_hosts`.
pub mod Keys
pub mod Targets
use lab_stream_gate.Common.{
  ℕ, ◌+◌, ◌≤◌, ◌≡◌, Bool, true, false, not, ◌&&◌, ◌||◌, Option, none, some, List, [], ◌∷◌, leb,
  ◌==◌, if◌then◌else◌, is_empty, all, length, ok, err, ◌>>=◌, ◌>>◌, guard, or_err, is_some,
}
use lab_stream_gate.Common.Text.{
  Text, codes, bytes, same, is_ascii_alphanumeric, to_ascii_lowercase,
}
use lab_stream_gate.Common.Parse.{rsplit_once, parse_u16, trim}
use lab_stream_gate.Net.{AddrText}
use lab_stream_gate.Http.{Http, http_error, bad_request, forbidden}

unfoldable pub key_message : Text
key_message = codes "key must contain 16-128 URL-safe ASCII characters"

unfoldable pub no_port_message : Text
no_port_message = codes "target must include a host and port"

unfoldable pub target_message : Text
target_message = codes "invalid tunnel target"

unfoldable pub host_message : Text
host_message = codes "target host is not allowed"

unfoldable pub is_key_byte : ℕ → Bool
unfolding is_ascii_alphanumeric
is_key_byte b = is_ascii_alphanumeric b || b == b'-' || b == b'_'

unfoldable pub validate_key : Text → Http (Unit {0})
unfolding is_key_byte bytes
validate_key key =
    if leb 16 (length (bytes key)) && leb (length (bytes key)) 128 && all is_key_byte (bytes key)
    then ok tt
    else err (http_error bad_request key_message)

unfoldable pub is_host_byte : ℕ → Bool
unfolding is_ascii_alphanumeric
is_host_byte b = is_ascii_alphanumeric b || b == b'.' || b == b'-'

-- `HashSet::contains`.
unfoldable pub contains_host : List Text → Text → Bool
contains_host [] h = false
contains_host (a ∷ hosts) h = same a h || contains_host hosts h

-- The host of a target that is no literal socket address.
unfoldable pub named_host : Text → Http Text
unfolding rsplit_once parse_u16 is_host_byte bytes to_ascii_lowercase
named_host target = do
  (host, port) ← or_err (rsplit_once b':' target) (http_error bad_request no_port_message)
  guard (not (is_empty host) && all is_host_byte (bytes host) && is_some (parse_u16 port))
      (http_error bad_request target_message)
  ok (to_ascii_lowercase host)

unfoldable pub target_host : AddrText → Text → Http Text
unfolding named_host
target_host net target = elim (net.parse_socket_addr target) [
  | some address ↦ ok (net.ip_to_string address.ip)
  | none ↦ named_host target
]

unfoldable pub validate_target : AddrText → Text → List Text → Http (Unit {0})
unfolding target_host contains_host
validate_target net target allowed_hosts = do
  host ← target_host net target
  guard (contains_host allowed_hosts host) (http_error forbidden host_message)

-- The set of allowed hosts, as a list.
unfoldable pub parse_allowed_hosts : List Text → List Text
unfolding trim to_ascii_lowercase
parse_allowed_hosts [] = []
parse_allowed_hosts (h ∷ hosts) =
    let host = to_ascii_lowercase (trim h) in
    if is_empty host then parse_allowed_hosts hosts else host ∷ parse_allowed_hosts hosts
