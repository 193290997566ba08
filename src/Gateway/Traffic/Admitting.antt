-- ===== src/Gateway/Traffic/Admitting.antt =====
-- Which connections the gateway lets in, and that it neither loses nor invents a permit.
use lab_stream_gate.Common.{
  ℕ, ◌+◌, ◌-◌, ◌<◌, ◌≡◌, refl, sym, subst, ◌⊎◌, inl, inr, true, false, List, ◌∷◌, arith, ◌==◌,
  length, ok, err, Bool-cases,
}
use lab_stream_gate.Common.Text.{Text}
use lab_stream_gate.Http.{Http, http_error, too_many_requests, service_unavailable}
use lab_stream_gate.Gateway.{TunnelRecord, GlobalState}
use lab_stream_gate.Gateway.Traffic.{
  acquire, release, Admission, take_slot, take_tunnel, tunnel_limit_message, gateway_limit_message,
}
use lab_stream_gate.Gateway.Traffic.Counting.{
  occurrences, close_one, IsCount, acquire-IsCount, release-IsCount,
}

-- The counters count the open connections, and with the free slots these make up the capacity.
pub record IsAccounted (capacity : ℕ) (s : GlobalState) (open_keys : List Text) : Type 0 where
  pub counts : IsCount s.max_connections_per_tunnel s.per_tunnel_connections open_keys
  pub slots : s.connection_slots + length open_keys ≡ capacity
  pub limited : 0 < s.max_connections_per_tunnel

-- What an attempt to connect leads to: a connection is open, or it is not and nothing is held.
abbrev pub Outcome : ℕ → List Text → Text → TunnelRecord → GlobalState × Http Admission → Type 0
Outcome capacity open_keys key r p =
    ((a : Admission) × (p.1 ≡ ok a)
      × (a.key ≡ key)
      × (a.tunnel ≡ r)
      × IsAccounted capacity p.0 (key ∷ open_keys))
    ⊎ ((p.1 ≡ err (http_error too_many_requests tunnel_limit_message))
        × (occurrences key open_keys ≡ p.0.max_connections_per_tunnel)
        × IsAccounted capacity p.0 open_keys)
    ⊎ ((p.1 ≡ err (http_error service_unavailable gateway_limit_message))
        × (length open_keys ≡ capacity)
        × IsAccounted capacity p.0 open_keys)

close_one_head : (k : Text) (ks : List Text) → close_one k (k ∷ ks) ≡ ks
unfolding close_one
close_one_head k ks = ground arith

occurrences_head : (k : Text) (ks : List Text) → 0 < occurrences k (k ∷ ks)
unfolding occurrences
occurrences_head k ks = ground arith

take_slot-Outcome :
    (capacity : ℕ) (key : Text) (open_keys : List Text) (a : Admission) (s : GlobalState)
    → a.key ≡ key
    → IsCount s.max_connections_per_tunnel s.per_tunnel_connections (key ∷ open_keys)
    → s.connection_slots + length open_keys ≡ capacity
    → 0 < s.max_connections_per_tunnel
    → Outcome capacity open_keys key a.tunnel (take_slot key a s)
take_slot-Outcome capacity key open_keys a s k v e l = elim (Bool-cases (s.connection_slots == 0)) [
  | inr more ↦
      subst (Outcome capacity open_keys key a.tunnel) (sym (taken more))
        (inl (a, refl, k, refl, record { counts = v; slots = ground arith; limited = l }))
  | inl full ↦ subst (Outcome capacity open_keys key a.tunnel) (sym (dropped full)) (
      inr (
        inr (
          refl,
          ground arith,
          record {
            counts =
                subst (IsCount _ _) (close_one_head key open_keys)
                  (release-IsCount key _ _ (key ∷ open_keys) v (occurrences_head key open_keys));
            slots = e;
            limited = l;
          },
        )))
]
  where
    taken :
        (s.connection_slots == 0) ≡ false
        → take_slot key a s ≡ (record s { connection_slots = s.connection_slots - 1 }, ok a)
    taken more = unfold take_slot in ground arith

    dropped :
        (s.connection_slots == 0) ≡ true
        → take_slot key a s ≡ (
          record s { per_tunnel_connections = release key s.per_tunnel_connections },
          err (http_error service_unavailable gateway_limit_message),
        )
    dropped full = unfold take_slot in ground arith

pub take_tunnel-Outcome :
    (capacity : ℕ) (key : Text) (open_keys : List Text) (a : Admission) (s : GlobalState)
    → a.key ≡ key
    → IsAccounted capacity s open_keys
    → Outcome capacity open_keys key a.tunnel
        (take_tunnel key a s (acquire key s.max_connections_per_tunnel s.per_tunnel_connections))
take_tunnel-Outcome capacity key open_keys a s k v =
    let limit = s.max_connections_per_tunnel in
    let c = s.per_tunnel_connections in
    elim (acquire-IsCount key limit c open_keys v.limited v.counts) [
      | inl (less, e, w) ↦
          subst (Outcome capacity open_keys key a.tunnel) (sym (go e))
            (take_slot-Outcome capacity key open_keys a _ k w v.slots v.limited)
      | inr (full, e, w) ↦
          subst (Outcome capacity open_keys key a.tunnel) (sym (stop e))
            (inr (inl (refl, full, record { counts = w; slots = v.slots; limited = v.limited })))
    ]
  where
    go :
        (acquire key s.max_connections_per_tunnel s.per_tunnel_connections).1 ≡ ok tt
        → take_tunnel key a s (acquire key s.max_connections_per_tunnel s.per_tunnel_connections)
          ≡ take_slot key a (record s {
            per_tunnel_connections =
                (acquire key s.max_connections_per_tunnel s.per_tunnel_connections).0;
          })
    go e = unfold take_tunnel in ground arith

    stop :
        (acquire key s.max_connections_per_tunnel s.per_tunnel_connections).1
          ≡ err (http_error too_many_requests tunnel_limit_message)
        → take_tunnel key a s (acquire key s.max_connections_per_tunnel s.per_tunnel_connections)
          ≡ (
            record s {
              per_tunnel_connections =
                  (acquire key s.max_connections_per_tunnel s.per_tunnel_connections).0;
            },
            err (http_error too_many_requests tunnel_limit_message),
          )
    stop e = unfold take_tunnel in ground arith
