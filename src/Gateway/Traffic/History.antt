-- ===== src/Gateway/Traffic/History.antt =====
-- Connections over a history of attempts, ends and operations on the registry.
use lab_stream_gate.Common.{
  ◌⊎◌, Result-cases, ℕ, suc, ◌-◌, ◌≤◌, ◌<◌, ◌≡◌, refl, sym, ap, subst, ◌∙◌, ◌↔◌, inl, inr, Option,
  none, some, List, ◌∷◌, arith, length, ok, err, Option-cases, Bool-cases,
}
use lab_stream_gate.Common.Text.{Text}
use lab_stream_gate.Common.Dict.{lookup}
use lab_stream_gate.Http.{HttpError, Http, http_error, not_found, gone}
use lab_stream_gate.Gateway.{TunnelRecord, GlobalState, is_expired}
use lab_stream_gate.Net.{AddrText, SocketAddr}
use lab_stream_gate.Gateway.Persist.{RegistryJson, PersistIo}
use lab_stream_gate.Gateway.Registry.{active_record, not_found_message, expired_message}
use lab_stream_gate.Gateway.Registry.Laws.{SameBesides, active_record_lem, live}
use lab_stream_gate.Gateway.Traffic.{
  acquire, Admission, take_tunnel, take_permits, admit, finish, health, forwarded_client,
}
use lab_stream_gate.Gateway.Traffic.Counting.{
  occurrences, close_one, release-IsCount, length-close_one,
}
use lab_stream_gate.Gateway.Traffic.Admitting.{IsAccounted, Outcome, take_tunnel-Outcome}

-- The accounting does not see the registry and the disk.
IsAccounted-SameBesides :
    (capacity : ℕ) (s t : GlobalState) (open_keys : List Text)
    → SameBesides s t
    → IsAccounted capacity s open_keys
    → IsAccounted capacity t open_keys
IsAccounted-SameBesides capacity s t open_keys e v =
    subst (λ x. IsAccounted capacity x open_keys) (sym e)
      (record { counts = v.counts; slots = v.slots; limited = v.limited })

take_permits-limit :
    (net : AddrText) (header : Option Text) (peer : SocketAddr) (key : Text)
    (p : GlobalState × Http TunnelRecord)
    → (take_permits net header peer key p).0.max_connections_per_tunnel
      ≡ p.0.max_connections_per_tunnel
unfolding take_permits
take_permits-limit net header peer key (s, ok r) = ground arith
take_permits-limit net header peer key (s, err e) = refl

active_record-limit :
    (json : RegistryJson) (io : PersistIo) (now : ℕ) (key : Text) (s : GlobalState)
    → (active_record json io now key s).0.max_connections_per_tunnel ≡ s.max_connections_per_tunnel
active_record-limit json io now key s =
    let (alive, absent, expired) = active_record_lem json io now key s in
    elim (Option-cases (lookup key s.connections)) [
      | inl n ↦ ap (λ p. p.0.max_connections_per_tunnel) (absent n)
      | inr (r, f) ↦ elim (Bool-cases (is_expired r now)) [
        | inr x ↦ ap (λ p. p.0.max_connections_per_tunnel) (alive r (ground arith))
        | inl x ↦ ap (λ t. t.max_connections_per_tunnel) (expired r f x).2
      ]
    ]

module _ (net : AddrText) (json : RegistryJson) (io : PersistIo) (now : ℕ) (header : Option Text)
    (peer : SocketAddr) (key : Text) (capacity : ℕ) (open_keys : List Text) (s : GlobalState)
    (v : IsAccounted capacity s open_keys) where
  admission_of : TunnelRecord → Admission
  admission_of r = record { tunnel = r; key = key; client = forwarded_client net header peer }

  -- With a live record the outcome rests on the counters alone.
  admit-Outcome :
      (r : TunnelRecord)
      → live s now key ≡ some r
      → Outcome capacity open_keys key r (admit net json io now header peer key s)
  unfolding admission_of
  admit-Outcome r h =
      subst (Outcome capacity open_keys key r) (sym steps)
        (take_tunnel-Outcome capacity key open_keys (admission_of r) s refl v)
    where
      found : active_record json io now key s ≡ (s, ok r)
      found = (active_record_lem json io now key s).0 r h

      steps :
          admit net json io now header peer key s
          ≡ take_tunnel key
              (admission_of r)
              s
              (acquire key s.max_connections_per_tunnel s.per_tunnel_connections)
      steps = unfold admit in ap (take_permits net header peer key) found

  -- Without one the attempt is refused, and nothing is held.
  admit-refused :
      live s now key ≡ none
      → ((e : HttpError) × ((admit net json io now header peer key s).1 ≡ err e))
        × IsAccounted capacity (admit net json io now header peer key s).0 open_keys
  admit-refused h =
      let (alive, absent, expired) = active_record_lem json io now key s in
      elim (Option-cases (lookup key s.connections)) [
        | inl n ↦ (
          (http_error not_found not_found_message, ap (λ p. p.1) (steps (absent n))),
          subst (λ p. IsAccounted capacity p.0 open_keys) (sym (steps (absent n))) v,
        )
        | inr (r, f) ↦
            let (e, m, same_rest) = expired r f (ground arith) in
            let gone_now = steps {u = (active_record json io now key s).0} (pair e) in
            (
              (http_error gone expired_message, ap (λ p. p.1) gone_now),
              subst (λ p. IsAccounted capacity p.0 open_keys) (sym gone_now)
                  (IsAccounted-SameBesides capacity s _ open_keys same_rest v),
            )
      ]
    where
      pair :
          {e : HttpError}
          → (active_record json io now key s).1 ≡ err e
          → active_record json io now key s ≡ ((active_record json io now key s).0, err e)
      pair e = ground arith

      steps :
          {u : GlobalState} {e : HttpError}
          → active_record json io now key s ≡ (u, err e)
          → admit net json io now header peer key s ≡ (u, err e)
      steps f = unfold admit in ap (take_permits net header peer key) f

  admit-limit :
      (admit net json io now header peer key s).0.max_connections_per_tunnel
      ≡ s.max_connections_per_tunnel
  admit-limit =
      unfold admit in
      take_permits-limit net header peer key (active_record json io now key s)
      ∙ active_record-limit json io now key s

  admit_lem :
      (((a : Admission) × ((admit net json io now header peer key s).1 ≡ ok a)) ↔ (
        ((r : TunnelRecord) × (live s now key ≡ some r))
        × (occurrences key open_keys < s.max_connections_per_tunnel)
        × (length open_keys < capacity)))
      × ((a : Admission)
          → (admit net json io now header peer key s).1 ≡ ok a
          → (live s now key ≡ some a.tunnel)
            × IsAccounted capacity (admit net json io now header peer key s).0 (key ∷ open_keys))
      × ((e : HttpError)
          → (admit net json io now header peer key s).1 ≡ err e
          → IsAccounted capacity (admit net json io now header peer key s).0 open_keys)
  admit_lem = elim (Option-cases (live s now key)) [
    | inl n ↦
        let ((e, f), w) = admit-refused n in
        ((λ (a, g). absurd (cc), λ ((r, l), _, _). absurd (cc)), λ a g. absurd (cc), λ x g. w)
    | inr (r, l) ↦ elim (admit-Outcome r l) [
      | inl (a, f, same_key, same_record, w) ↦
          let b = w.counts.bounded key in
          let o : occurrences key (key ∷ open_keys) ≡ suc (occurrences key open_keys) =
            unfold occurrences in ground arith in
          (
            (λ _. ((r, l), ground (arith, admit-limit), ground (arith, w.slots)), λ _. (a, f)),
            λ c g. (ground arith, w),
            λ x g. absurd (cc),
          )
      | inr (inl (f, full, w)) ↦ (
        (λ (a, g). absurd (cc), λ (_, less, _). absurd (ground (arith, admit-limit))),
        λ c g. absurd (cc),
        λ x g. w,
      )
      | inr (inr (f, full, w)) ↦ (
        (λ (a, g). absurd (cc), λ (_, _, less). absurd (ground arith)),
        λ c g. absurd (cc),
        λ x g. w,
      )
    ]
  ]

  -- In a state whose counters account for the open connections, a connection is let in exactly
  -- when its key has a live record, fewer connections of the key are open than the limit for one
  -- tunnel, and fewer in all than the capacity; it then gets the record. Either way the counters
  -- afterwards count the connections that are open.
  pub admit_iff :
      (((a : Admission) × ((admit net json io now header peer key s).1 ≡ ok a)) ↔ (
        ((r : TunnelRecord) × (live s now key ≡ some r))
        × (occurrences key open_keys < s.max_connections_per_tunnel)
        × (length open_keys < capacity)))
      × (((a : Admission) × ((admit net json io now header peer key s).1 ≡ ok a)
            × (live s now key ≡ some a.tunnel)
            × IsAccounted capacity (admit net json io now header peer key s).0 (key ∷ open_keys))
          ⊎ ((e : HttpError) × ((admit net json io now header peer key s).1 ≡ err e)
              × IsAccounted capacity (admit net json io now header peer key s).0 open_keys))
  admit_iff =
      let (exactly, let_in, kept) = admit_lem in
      (
        exactly,
        elim (Result-cases (admit net json io now header peer key s).1) [
          | inl (a, h) ↦ let (l, w) = let_in a h in inl (a, h, l, w)
          | inr (e, h) ↦ inr (e, h, kept e h)
        ],
      )

-- Connections come and go: an attempt that is let in, one that is refused, the end of an open one.
pub data Step (net : AddrText) (json : RegistryJson)
    : GlobalState → List Text → GlobalState → List Text → Type 0 where
  enters :
      (io : PersistIo) (now : ℕ) (header : Option Text) (peer : SocketAddr) (key : Text)
      (s t : GlobalState) (open_keys : List Text) (a : Admission)
      → admit net json io now header peer key s ≡ (t, ok a)
      → Step net json s open_keys t (key ∷ open_keys)
  is_refused :
      (io : PersistIo) (now : ℕ) (header : Option Text) (peer : SocketAddr) (key : Text)
      (s t : GlobalState) (open_keys : List Text) (e : HttpError)
      → admit net json io now header peer key s ≡ (t, err e)
      → Step net json s open_keys t open_keys
  ends :
      (key : Text) (s : GlobalState) (open_keys : List Text)
      → 0 < occurrences key open_keys
      → Step net json s open_keys (finish key s) (close_one key open_keys)

pub data Reach (net : AddrText) (json : RegistryJson) (s : GlobalState)
    : List Text → GlobalState → List Text → Type 0 where
  here : (open_keys : List Text) → Reach net json s open_keys s open_keys
  next :
      {start later after : List Text} {t u : GlobalState}
      → Reach net json s start t later
      → Step net json t later u after
      → Reach net json s start u after

finish-IsAccounted :
    (capacity : ℕ) (key : Text) (s : GlobalState) (open_keys : List Text)
    → IsAccounted capacity s open_keys
    → 0 < occurrences key open_keys
    → IsAccounted capacity (finish key s) (close_one key open_keys)
unfolding finish
finish-IsAccounted capacity key s open_keys v h = record {
  counts = release-IsCount key _ _ open_keys v.counts h;
  slots = ground (arith, length-close_one key open_keys, v.slots);
  limited = v.limited;
}

Step-IsAccounted :
    (capacity : ℕ) {net : AddrText} {json : RegistryJson} {s t : GlobalState}
    {before after : List Text}
    → Step net json s before t after
    → IsAccounted capacity s before
    → IsAccounted capacity t after
Step-IsAccounted capacity {net} {json} (enters io now header peer key s t open_keys a e) v =
    let (_, let_in, _) = admit_lem net json io now header peer key capacity open_keys s v in
    subst (λ x. IsAccounted capacity x (key ∷ open_keys)) (ap (λ p. p.0) e)
      (let_in a (ap (λ p. p.1) e)).1
Step-IsAccounted capacity {net} {json} (is_refused io now header peer key s t open_keys x e) v =
    let (_, _, kept) = admit_lem net json io now header peer key capacity open_keys s v in
    subst (λ y. IsAccounted capacity y open_keys) (ap (λ p. p.0) e) (kept x (ap (λ p. p.1) e))
Step-IsAccounted capacity (ends key s open_keys h) v =
    finish-IsAccounted capacity key s open_keys v h

Reach-IsAccounted :
    (capacity : ℕ) {net : AddrText} {json : RegistryJson} {s t : GlobalState}
    {before after : List Text}
    → Reach net json s before t after
    → IsAccounted capacity s before
    → IsAccounted capacity t after
Reach-IsAccounted capacity (here open_keys) v = v
Reach-IsAccounted capacity (next r st) v =
    Step-IsAccounted capacity st (Reach-IsAccounted capacity r v)

-- From a state that accounts for its open connections, after any history of attempts and ends no
-- key has more open connections than the limit for one tunnel, all together are no more than the
-- capacity, and `health` reports their number and what is left of the capacity.
pub Reach-health :
    (capacity : ℕ) {net : AddrText} {json : RegistryJson} {s t : GlobalState}
    {before after : List Text}
    → IsAccounted capacity s before
    → Reach net json s before t after
    → ((k : Text) → occurrences k after ≤ t.max_connections_per_tunnel)
      × (length after ≤ capacity)
      × ((health t).active_tunnel_connections ≡ length after)
      × ((health t).available_connections ≡ capacity - length after)
unfolding health
Reach-health capacity v r =
    let w = Reach-IsAccounted capacity r v in
    let healthy = w.counts.healthy in
    (
      w.counts.bounded,
      omega (arith, w.slots),
      ground (arith, w.counts.total),
      omega (arith, w.slots),
    )
