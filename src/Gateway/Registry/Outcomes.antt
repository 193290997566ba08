-- ===== src/Gateway/Registry/Outcomes.antt =====
-- Every outcome of the handlers of the registry, with the state after it.
use lab_stream_gate.Common.{ℕ, ◌≡◌, ◌≤◌, ◌<◌, ◌⊎◌, inl, inr, Option, none, some, err, Option-cases}
use lab_stream_gate.Common.Text.{Text}
use lab_stream_gate.Common.Dict.{lookup, remove}
use lab_stream_gate.Http.{http_error, no_content, not_found}
use lab_stream_gate.Net.{AddrText}
use lab_stream_gate.Gateway.{TunnelRecord, TunnelRequest, GlobalState}
use lab_stream_gate.Gateway.Persist.{RegistryJson, PersistIo}
use lab_stream_gate.Gateway.Registry.{close_tunnel, not_found_message}
use lab_stream_gate.Gateway.Registry.Safety.{IsKey, IsPermitted}
use lab_stream_gate.Gateway.Registry.Laws.{Changed, close_tunnel_lem}

-- No time of expiry, or one that is still to come.
abbrev pub IsAhead : Option ℕ → ℕ → Type 0
IsAhead none now = Unit
IsAhead (some expiry) now = now < expiry

-- A time of expiry that has come.
abbrev pub HasCome : Option ℕ → ℕ → Type 0
HasCome none now = ⊥
HasCome (some expiry) now = expiry ≤ now

-- A request with a proper key, a target that names an allowed host, and an expiry to come if any.
abbrev pub IsAcceptable : AddrText → ℕ → GlobalState → TunnelRequest → Type 0
IsAcceptable net now s req =
    IsKey req.key × IsPermitted net s.allowed_target_hosts req.target × IsAhead req.expires_at now

-- `close_tunnel` on a key without a record answers 404 and changes nothing. On any other key it
-- removes the record and changes nothing else but the disk, and the answer is 204 or, if persisting
-- fails, status 500.
close_tunnel_cases :
    (json : RegistryJson) (io : PersistIo) (key : Text) (s : GlobalState)
    → ((lookup key s.connections ≡ none)
        × (close_tunnel json io key s ≡ (s, err (http_error not_found not_found_message))))
      ⊎ ((r : TunnelRecord) × (lookup key s.connections ≡ some r)
          × Changed s (remove key s.connections) no_content (close_tunnel json io key s))
close_tunnel_cases json io key s =
    let (absent, present) = close_tunnel_lem json io key s in
    elim (Option-cases (lookup key s.connections)) [
      | inl h ↦ inl (h, absent h)
      | inr (r, h) ↦ inr (r, h, present r h)
    ]
