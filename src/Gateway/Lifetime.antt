-- ===== src/Gateway/Lifetime.antt =====
-- crates/wsrx/src/cli/serve.rs: the life of a gateway's registry, from a launch to a restart: the
-- requests that come in, and what they mean for a table of records that has no expiry and no disk.
mod Tests
pub mod Standing
pub mod Events
pub mod Restart
use lab_stream_gate.Common.{
  ℕ, ◌≤◌, ◌≡◌, Bool, true, false, ◌&&◌, Option, none, some, List, [], ◌∷◌, if◌then◌else◌, Result,
  ok, err,
}
use lab_stream_gate.Common.Text.{Text, same}
use lab_stream_gate.Net.{AddrText}
use lab_stream_gate.Gateway.{TunnelRecord, TunnelRequest, GlobalState}
use lab_stream_gate.Gateway.Auth.{ConstantTime, authorize_management}
use lab_stream_gate.Gateway.Persist.{RegistryJson, faultless}
use lab_stream_gate.Gateway.Registry.{record_of, check_request, remove_expired, active_record}
use lab_stream_gate.Gateway.Router.{
  PoolRequest, get_pool, post_pool, delete_pool, other_method, management,
}

-- What can happen to the registry: a request for /pool with an authorization header, the lookup of a
-- connection or a ping, and the periodic clean-up.
pub data Event : Type 0 where
  requests : Option Text → PoolRequest → Event
  looks_up : Text → Event
  cleans_up : Event

pub record Moment : Type 0 where
  pub now : ℕ
  pub event : Event

-- An abstract registry: a record for each key.
abbrev pub Table : Type 0
Table = Text → Option TunnelRecord

abbrev pub is_ok {ℓ κ} : {E : Type κ} {A : Type ℓ} → Result E A → Bool
is_ok (ok a) = true
is_ok (err e) = false

module _ (ct : ConstantTime) (net : AddrText) where
  module _ (json : RegistryJson) where
    -- The state after an event, while the file system has no faults.
    unfoldable pub apply : ℕ → Event → GlobalState → GlobalState
    unfolding management remove_expired active_record
    apply now (requests header request) s =
        (management ct net json faultless now header request s).0
    apply now (looks_up key) s = (active_record json faultless now key s).0
    apply now cleans_up s = remove_expired json faultless now s

    unfoldable pub run_history : List Moment → GlobalState → GlobalState
    unfolding apply
    run_history [] s = s
    run_history (m ∷ ms) s = run_history ms (apply m.now m.event s)

    -- The registry can be serialized after each event.
    abbrev pub Writes : List Moment → GlobalState → Type 0
    Writes [] s = Unit {0}
    Writes (m ∷ ms) s =
        let t = apply m.now m.event s in
        ((written : List ℕ) × (json.to_vec t.connections ≡ ok written)) × Writes ms t

  module _ (secret : Text) (allowed : List Text) where
    -- What an event means for the table: a record is bound by a request with the secret that passes
    -- the checks, and taken out by one with the secret; nothing else counts.
    unfoldable pub mean : ℕ → Event → Table → Table
    unfolding authorize_management check_request
    mean now (requests header (post_pool (ok req))) table = λ k.
        if is_ok (authorize_management ct secret header)
          && (is_ok (check_request net now allowed req) && same req.key k)
        then some (record_of req)
        else table k
    mean now (requests header (delete_pool (ok key))) table =
        λ k. if is_ok (authorize_management ct secret header) && same key k then none else table k
    mean now (requests header (post_pool (err e))) table = table
    mean now (requests header (delete_pool (err e))) table = table
    mean now (requests header get_pool) table = table
    mean now (requests header other_method) table = table
    mean now (looks_up key) table = table
    mean now cleans_up table = table

    unfoldable pub meaning : List Moment → Table → Table
    unfolding mean
    meaning [] table = table
    meaning (m ∷ ms) table = meaning ms (mean m.now m.event table)

-- The clock does not go back, from `first` to `last`.
abbrev pub Passes : ℕ → List Moment → ℕ → Type 0
Passes first [] last = first ≤ last
Passes first (m ∷ ms) last = (first ≤ m.now) × Passes m.now ms last
