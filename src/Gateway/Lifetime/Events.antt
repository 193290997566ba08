-- ===== src/Gateway/Lifetime/Events.antt =====
-- crates/wsrx/src/cli/serve.rs: each event on a state that stands for a table does what it means for
-- the table.
use lab_stream_gate.Common.{
  ℕ, ◌≤◌, ◌≡◌, refl, inl, inr, ◌&&◌, Option, none, some, List, [], ◌∷◌, if◌then◌else◌, ok, err,
  arith, Option-cases, Bool-cases, Result-cases,
}
use lab_stream_gate.Common.Text.{Text, same}
use lab_stream_gate.Common.Dict.{lookup, insert, remove, insert-IsDict, remove-IsDict}
use lab_stream_gate.Net.{AddrText}
use lab_stream_gate.Gateway.{TunnelRequest, is_expired, FilePath, GlobalState}
use lab_stream_gate.Gateway.Auth.{ConstantTime, authorize_management}
use lab_stream_gate.Gateway.Persist.{RegistryJson, persist_registry, faultless}
use lab_stream_gate.Gateway.Registry.{
  record_of, check_request, launch_tunnel, get_tunnels, close_tunnel, active_record,
}
use lab_stream_gate.Http.{StatusCode}
use lab_stream_gate.Gateway.Router.{
  PoolRequest, get_pool, post_pool, delete_pool, other_method, pool, management,
}
use lab_stream_gate.Gateway.Lifetime.{
  Event, requests, looks_up, cleans_up, Moment, Table, is_ok, apply, run_history, Writes, mean,
  meaning, Passes,
}
use lab_stream_gate.Gateway.Lifetime.Standing.{
  StandsFor, after_persist_state, StandsFor-later, StandsFor-persist, StandsFor-remove_expired,
  StandsFor-ext, keep-insert, keep-remove, keep-absent, keep-expired,
}

module _ (json : RegistryJson) (secret : Text) (allowed : List Text) (path : FilePath) where
  module _ (net : AddrText) where
    StandsFor-launch :
        (n now : ℕ) (req : TunnelRequest) (s : GlobalState) (table : Table)
        → StandsFor json secret allowed path n s table
        → n ≤ now
        → ((written : List ℕ) × (json.to_vec
                (launch_tunnel net json faultless now req s).0.connections
              ≡ ok written))
        → StandsFor json secret allowed path now
            (launch_tunnel net json faultless now req s).0
            (λ k.
              if is_ok (check_request net now allowed req) && same req.key k
              then some (record_of req)
              else table k)
    unfolding launch_tunnel
    StandsFor-launch n now req s table h l w =
        elim (Result-cases (check_request net now s.allowed_target_hosts req)) [
          | inr (e, z) ↦
              let f : (launch_tunnel net json faultless now req s).0 ≡ s =
                rw (z, launch_tunnel) refl in
              let z' = rw h.permitted at z in
              rw f (
                StandsFor-later json secret allowed path n now s table _ h l
                  (λ k t u. rw z' (h.agrees k t (omega arith))))
          | inl (u, z) ↦
              let m = insert req.key (record_of req) s.connections in
              let f : (launch_tunnel net json faultless now req s).0
                  ≡ (persist_registry json faultless (record s { connections = m })).0 =
                rw (z, launch_tunnel) (after_persist_state _ _) in
              let z' = rw h.permitted at z in
              StandsFor-persist json secret allowed path n now s
                (launch_tunnel net json faultless now req s).0 table _ m h
                (insert-IsDict req.key (record_of req) s.connections h.one_entry)
                (λ k t v. rw z' (
                  keep-insert json secret allowed path t req.key k (record_of req) s.connections
                    table (h.agrees k t (omega arith))))
                f w
        ]

  StandsFor-close :
      (n now : ℕ) (key : Text) (s : GlobalState) (table : Table)
      → StandsFor json secret allowed path n s table
      → n ≤ now
      → ((written : List ℕ) × (json.to_vec (close_tunnel json faultless key s).0.connections
            ≡ ok written))
      → StandsFor json secret allowed path now
          (close_tunnel json faultless key s).0
          (λ k. if same key k then none else table k)
  unfolding close_tunnel
  StandsFor-close n now key s table h l w = elim (Option-cases (lookup key s.connections)) [
    | inl z ↦
        let f : (close_tunnel json faultless key s).0 ≡ s = rw (z, close_tunnel) refl in
        rw f (
          StandsFor-later json secret allowed path n now s table _ h l (λ k t u.
            keep-absent json secret allowed path t key k s.connections table z
              (h.agrees k t (omega arith))))
    | inr (r, z) ↦
        let m = remove key s.connections in
        let f : (close_tunnel json faultless key s).0
            ≡ (persist_registry json faultless (record s { connections = m })).0 =
          rw (z, close_tunnel) (after_persist_state _ _) in
        StandsFor-persist json secret allowed path n now s (close_tunnel json faultless key s).0
          table _ m h (remove-IsDict key s.connections h.one_entry)
          (λ k t u.
            keep-remove json secret allowed path t key k s.connections table h.one_entry
              (h.agrees k t (omega arith)))
          f w
  ]

  StandsFor-active_record :
      (n now : ℕ) (key : Text) (s : GlobalState) (table : Table)
      → StandsFor json secret allowed path n s table
      → n ≤ now
      → ((written : List ℕ) × (json.to_vec (active_record json faultless now key s).0.connections
            ≡ ok written))
      → StandsFor json secret allowed path now (active_record json faultless now key s).0 table
  unfolding active_record
  StandsFor-active_record n now key s table h l w =
      let same_table =
        StandsFor-later json secret allowed path n now s table table h l
          (λ k t u. h.agrees k t (omega arith)) in
      elim (Option-cases (lookup key s.connections)) [
        | inl z ↦ rw (z, active_record) same_table
        | inr (r, z) ↦ elim (Bool-cases (is_expired r now)) [
          | inr y ↦ rw (z, y, active_record) same_table
          | inl y ↦
              let m = remove key s.connections in
              let f : (active_record json faultless now key s).0
                  ≡ (persist_registry json faultless (record s { connections = m })).0 =
                rw (z, y, active_record) refl in
              StandsFor-persist json secret allowed path n now s
                (active_record json faultless now key s).0 table table m h
                (remove-IsDict key s.connections h.one_entry)
                (λ k t u.
                  keep-expired json secret allowed path now t key k r s.connections table
                    h.one_entry u z y (h.agrees k t (omega arith)))
                f w
        ]
      ]

  module _ (ct : ConstantTime) (net : AddrText) where
    -- A request that the middleware lets through.
    StandsFor-pool :
        (n now : ℕ) (header : Option Text) (request : PoolRequest) (s : GlobalState) (table : Table)
        → StandsFor json secret allowed path n s table
        → n ≤ now
        → authorize_management ct secret header ≡ ok tt
        → ((written : List ℕ) × (json.to_vec (pool net json faultless now request s).0.connections
              ≡ ok written))
        → StandsFor json secret allowed path now
            (pool net json faultless now request s).0
            (mean ct net secret allowed now (requests header request) table)
    unfolding pool mean get_tunnels
    StandsFor-pool n now header get_pool s table h l a w =
        StandsFor-remove_expired json secret allowed path n now s table h l w
    StandsFor-pool n now header (post_pool (err e)) s table h l a w =
        StandsFor-later json secret allowed path n now s table table h l
          (λ k t u. h.agrees k t (omega arith))
    StandsFor-pool n now header (post_pool (ok req)) s table h l a w =
        StandsFor-ext json secret allowed path now _ _ _ (λ k. rw (a, mean) refl)
          (StandsFor-launch net n now req s table h l w)
    StandsFor-pool n now header (delete_pool (err e)) s table h l a w =
        StandsFor-later json secret allowed path n now s table table h l
          (λ k t u. h.agrees k t (omega arith))
    StandsFor-pool n now header (delete_pool (ok key)) s table h l a w =
        StandsFor-ext json secret allowed path now _ _ _ (λ k. rw (a, mean) refl)
          (StandsFor-close n now key s table h l w)
    StandsFor-pool n now header other_method s table h l a w =
        StandsFor-later json secret allowed path n now s table table h l
          (λ k t u. h.agrees k t (omega arith))

    -- A request that the middleware refuses means nothing.
    mean_refused :
        (now : ℕ) (header : Option Text) (request : PoolRequest) (table : Table) (e : StatusCode)
        → authorize_management ct secret header ≡ err e
        → (k : Text) → mean ct net secret allowed now (requests header request) table k ≡ table k
    unfolding mean
    mean_refused now header get_pool table e a k = refl
    mean_refused now header (post_pool (err x)) table e a k = refl
    mean_refused now header (post_pool (ok req)) table e a k = rw a refl
    mean_refused now header (delete_pool (err x)) table e a k = refl
    mean_refused now header (delete_pool (ok key)) table e a k = rw a refl
    mean_refused now header other_method table e a k = refl

    StandsFor-apply :
        (n now : ℕ) (event : Event) (s : GlobalState) (table : Table)
        → StandsFor json secret allowed path n s table
        → n ≤ now
        → ((written : List ℕ) × (json.to_vec (apply ct net json now event s).connections
              ≡ ok written))
        → StandsFor json secret allowed path now
            (apply ct net json now event s)
            (mean ct net secret allowed now event table)
    unfolding apply
    StandsFor-apply n now (looks_up key) s table h l w =
        unfold mean in StandsFor-active_record n now key s table h l w
    StandsFor-apply n now cleans_up s table h l w =
        unfold mean in StandsFor-remove_expired json secret allowed path n now s table h l w
    StandsFor-apply n now (requests header request) s table h l w =
        elim (Result-cases (authorize_management ct s.secret header)) [
          | inr (e, z) ↦
              let f : (management ct net json faultless now header request s).0 ≡ s =
                rw (z, management) refl in
              let z' = rw h.guarded at z in
              rw f (
                StandsFor-ext json secret allowed path now s table _
                  (mean_refused now header request table e z')
                  (StandsFor-later json secret allowed path n now s table table h l
                    (λ k t u. h.agrees k t (omega arith))))
          | inl (u, z) ↦
              let f : (management ct net json faultless now header request s).0
                  ≡ (pool net json faultless now request s).0 =
                rw (z, management) refl in
              rw f (StandsFor-pool n now header request s table h l (rw h.guarded at z) (rw f at w))
        ]

    pub StandsFor-run_history :
        (n last : ℕ) (history : List Moment) (s : GlobalState) (table : Table)
        → StandsFor json secret allowed path n s table
        → Passes n history last
        → Writes ct net json history s
        → StandsFor json secret allowed path last
            (run_history ct net json history s)
            (meaning ct net secret allowed history table)
    unfolding run_history meaning
    StandsFor-run_history n last [] s table h p w =
        StandsFor-later json secret allowed path n last s table table h p
          (λ k t u. h.agrees k t (omega arith))
    StandsFor-run_history n last (m ∷ ms) s table h p w =
        StandsFor-run_history m.now last ms _ _ (StandsFor-apply n m.now m.event s table h p.0 w.0)
          p.1 w.1
