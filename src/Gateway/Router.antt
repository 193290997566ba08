-- ===== src/Gateway/Router.antt =====
-- crates/wsrx/src/cli/serve.rs: the management routes of `build_router`, behind the middleware
-- `authorize_management`.
use lab_stream_gate.Common.{ℕ, Option, Result, ok, err}
use lab_stream_gate.Common.Text.{Text}
use lab_stream_gate.Common.Dict.{Dict}
use lab_stream_gate.Http.{StatusCode, HttpError, Http, method_not_allowed}
use lab_stream_gate.Net.{AddrText}
use lab_stream_gate.Gateway.{TunnelRecord, TunnelRequest, GlobalState}
use lab_stream_gate.Gateway.Auth.{ConstantTime, authorize_management}
use lab_stream_gate.Gateway.Persist.{RegistryJson, PersistIo}
use lab_stream_gate.Gateway.Registry.{launch_tunnel, get_tunnels, close_tunnel}

-- A request for /pool by its method, with what the extractor `Json` makes of its body.
pub data PoolRequest : Type 0 where
  get_pool : PoolRequest
  post_pool : Result StatusCode TunnelRequest → PoolRequest
  delete_pool : Result StatusCode Text → PoolRequest
  other_method : PoolRequest

pub data Answer : Type 0 where
  status : StatusCode → Answer
  failure : HttpError → Answer
  tunnel : StatusCode → TunnelRecord → Answer
  tunnels : Dict TunnelRecord → Answer

abbrev launch_answer : Http (StatusCode × TunnelRecord) → Answer
launch_answer (ok (code, r)) = tunnel code r
launch_answer (err e) = failure e

abbrev close_answer : Http StatusCode → Answer
close_answer (ok code) = status code
close_answer (err e) = failure e

-- The method router of `/pool`.
unfoldable pub pool :
    AddrText → RegistryJson → PersistIo → ℕ → PoolRequest → GlobalState → GlobalState × Answer
unfolding launch_tunnel get_tunnels close_tunnel
pool net json io now get_pool state =
    let (after, registry) = get_tunnels json io now state in (after, tunnels registry)
pool net json io now (post_pool (err e)) state = (state, status e)
pool net json io now (post_pool (ok req)) state =
    let (after, result) = launch_tunnel net json io now req state in (after, launch_answer result)
pool net json io now (delete_pool (err e)) state = (state, status e)
pool net json io now (delete_pool (ok key)) state =
    let (after, result) = close_tunnel json io key state in (after, close_answer result)
pool net json io now other_method state = (state, status method_not_allowed)

-- The router `management`: the layer lets the request through or answers itself.
unfoldable pub management :
    ConstantTime
    → AddrText
    → RegistryJson
    → PersistIo
    → ℕ
    → Option Text
    → PoolRequest
    → GlobalState
    → GlobalState × Answer
unfolding pool authorize_management
management ct net json io now header request state =
    elim (authorize_management ct state.secret header) [
      | err e ↦ (state, status e)
      | ok u ↦ pool net json io now request state
    ]
