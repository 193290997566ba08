-- ===== src/Desktop/Latency.antt =====
-- crates/desktop/src/daemon/workers.rs: a round of `latency_loop`.
use lab_stream_gate.Common.{
  ℕ, ◌≡◌, refl, sym, ap, ◌≤◌, subst, ◌∙◌, inl, inr, Bool, true, false, not, ◌==◌, Option, none,
  some, List, [], ◌∷◌, ◌++◌, ◌||◌, ◌⊎◌, Result, ok, err, append-nil, append_assoc, arith, length,
  retain, Bool-cases, Option-cases, if◌then◌else◌,
}
use lab_stream_gate.Common.Text.{Text, same}
use lab_stream_gate.Desktop.{
  InstanceData, ServerState, UiEvent, update_instance_state, same_latency, refresh, send, find,
  has_local, has_host, remove_instance,
}
use lab_stream_gate.Desktop.Api.{PingFallSettings, LatencyError, drops, pingfall, pingfall_value}

-- What the round does with one instance of its snapshot, by how its measurement ended. The Boolean is
-- `changed`.
unfoldable pub visit :
    (Text → PingFallSettings)
    → InstanceData
    → Result LatencyError ℕ
    → ServerState × Bool
    → ServerState × Bool
unfolding update_instance_state pingfall
visit from_value i (ok elapsed) (s, changed) =
    let (t, updated) = update_instance_state i (some elapsed) s in (t, updated || changed)
visit from_value i (err e) (s, changed) =
    let (t, updated) = update_instance_state i none s in
    (pingfall from_value i e t, updated || changed)

unfoldable pub visit_all :
    (Text → PingFallSettings)
    → (InstanceData → Result LatencyError ℕ)
    → List InstanceData
    → ServerState × Bool
    → ServerState × Bool
unfolding visit
visit_all from_value measured [] s = s
visit_all from_value measured (i ∷ is) s =
    visit_all from_value measured is (visit from_value i (measured i) s)

-- `measured` says how `update_instance_latency` ends.
unfoldable pub latency_round :
    (Text → PingFallSettings) → (InstanceData → Result LatencyError ℕ) → ServerState → ServerState
unfolding visit_all
latency_round from_value measured s =
    let (t, changed) = visit_all from_value measured s.instances (s, false) in
    if changed then send refresh t else t

length-retain : {A : Type 0} (p : A → Bool) (xs : List A) → length (retain p xs) ≤ length xs
length-retain p [] = omega arith
length-retain p (x ∷ xs) = ground (arith, length-retain p xs)

retain-all :
    {A : Type 0} (p : A → Bool) (xs : List A) → length (retain p xs) ≡ length xs → retain p xs ≡ xs
retain-all p [] h = refl
retain-all p (x ∷ xs) h = elim (Bool-cases (p x)) [
  | inl y ↦ rw y (ap (λ l. x ∷ l) (retain-all p xs (ground (arith, y))))
  | inr n ↦ absurd (ground (arith, n, length-retain p xs))
]

-- The second state is the first one, or the last event sent in between is a refresh.
abbrev pub IsTold : ServerState → ServerState → Type 0
IsTold s t = (t ≡ s) ⊎ ((es : List UiEvent) × (t.events ≡ s.events ++ es ++ refresh ∷ []))

-- Events are only sent.
abbrev pub Sends : ServerState → ServerState → Type 0
Sends s t = (es : List UiEvent) × (t.events ≡ s.events ++ es)

-- The same while a refresh is due.
abbrev pub IsDue : ServerState → ServerState → Bool → Type 0
IsDue s t true = Sends s t
IsDue s t false = IsTold s t

remove_instance-IsTold : (local : Text) (s : ServerState) → IsTold s (remove_instance local s).0
unfolding remove_instance
remove_instance-IsTold local s =
    let p : InstanceData → Bool = λ i. not (has_local local i) in
    elim (Bool-cases (length (retain p s.instances) == length s.instances)) [
      | inl y ↦ rw y (
          inl (ap (λ l. record s { instances = l }) (retain-all p s.instances (ground (arith, y)))))
      | inr n ↦ rw n (inr ([], ap (λ l. l ++ refresh ∷ []) (sym (append-nil s.events))))
    ]

pingfall-IsTold :
    (from_value : Text → PingFallSettings) (i : InstanceData) (e : LatencyError) (s : ServerState)
    → IsTold s (pingfall from_value i e s)
unfolding pingfall
pingfall-IsTold from_value i e s =
    elim (Option-cases (pingfall_value (find (has_host i.scope_host) s.scopes))) [
      | inl n ↦ rw (n, pingfall) (inl refl)
      | inr (value, v) ↦ elim (Bool-cases (drops (from_value value) e)) [
        | inl y ↦ rw (v, pingfall) (rw y (remove_instance-IsTold i.local s))
        | inr n ↦ rw (v, pingfall) (rw n (inl refl))
      ]
    ]

Sends-IsTold : (s t u : ServerState) → Sends s t → IsTold t u → Sends s u
Sends-IsTold s t u (es, h) (inl e) = (es, ap (λ x. x.events) e ∙ h)
Sends-IsTold s t u (es, h) (inr (fs, e)) =
    (es ++ (fs ++ refresh ∷ []), e ∙ ap (λ l. l ++ fs ++ refresh ∷ []) h ∙ simp (append_assoc))

IsTold-trans : (s t u : ServerState) → IsTold s t → IsTold t u → IsTold s u
IsTold-trans s t u (inl e) h = subst (λ x. IsTold x u) e h
IsTold-trans s t u (inr h) (inl e) = subst (IsTold s) (sym e) (inr h)
IsTold-trans s t u (inr (es, h)) (inr (fs, e)) =
    inr ((es ++ refresh ∷ []) ++ fs, e ∙ ap (λ l. l ++ fs ++ refresh ∷ []) h ∙ simp (append_assoc))

IsTold-Sends : (s t : ServerState) → IsTold s t → Sends s t
IsTold-Sends s t (inl e) = ([], ap (λ x. x.events) e ∙ sym (append-nil s.events))
IsTold-Sends s t (inr (es, h)) = (es ++ refresh ∷ [], h ∙ append_assoc s.events es (refresh ∷ []))

update_instance_state-IsDue :
    (i : InstanceData) (elapsed : Option ℕ) (t : ServerState)
    → ((update_instance_state i elapsed t).1 ≡ true)
        × ((update_instance_state i elapsed t).0.events ≡ t.events)
      ⊎ (update_instance_state i elapsed t ≡ (t, false))
unfolding update_instance_state
update_instance_state-IsDue i elapsed t =
    elim (Option-cases (find (λ j. same j.remote i.remote) t.instances)) [
      | inl n ↦ rw (n, update_instance_state) (inr refl)
      | inr (j, e) ↦ elim (Bool-cases (same_latency j.latency elapsed)) [
        | inl y ↦ rw (e, update_instance_state) (rw y (inr refl))
        | inr n ↦ rw (e, update_instance_state) (rw n (inl (refl, refl)))
      ]
    ]

IsDue-Sends : (s t : ServerState) (changed : Bool) → IsDue s t changed → Sends s t
IsDue-Sends s t true h = h
IsDue-Sends s t false h = IsTold-Sends s t h

Sends-same : (s t u : ServerState) → Sends s t → u.events ≡ t.events → Sends s u
Sends-same s t u (es, h) e = (es, e ∙ h)

Sends-send :
    (s t : ServerState)
    → Sends s t
    → (es : List UiEvent) × ((send refresh t).events ≡ s.events ++ es ++ refresh ∷ [])
Sends-send s t (es, h) = (es, ap (λ l. l ++ refresh ∷ []) h)

visit-IsDue :
    (from_value : Text → PingFallSettings) (i : InstanceData) (e : Result LatencyError ℕ)
    (s t : ServerState) (changed : Bool)
    → IsDue s t changed
    → IsDue s (visit from_value i e (t, changed)).0 (visit from_value i e (t, changed)).1
unfolding visit
visit-IsDue from_value i (ok elapsed) s t changed h =
    elim (update_instance_state-IsDue i (some elapsed) t) [
      | inl (y, e) ↦ rw y (
          Sends-same s t (update_instance_state i (some elapsed) t).0 (IsDue-Sends s t changed h) e)
      | inr e ↦ rw e h
    ]
visit-IsDue from_value i (err x) s t true h = elim (update_instance_state-IsDue i none t) [
  | inl (y, e) ↦ rw y (
      Sends-IsTold s _ _ (Sends-same s t (update_instance_state i none t).0 h e)
        (pingfall-IsTold from_value i x _))
  | inr e ↦ rw e (Sends-IsTold s t _ h (pingfall-IsTold from_value i x t))
]
visit-IsDue from_value i (err x) s t false h = elim (update_instance_state-IsDue i none t) [
  | inl (y, e) ↦ rw y (
      Sends-IsTold s _ _ (Sends-same s t (update_instance_state i none t).0 (IsTold-Sends s t h) e)
        (pingfall-IsTold from_value i x _))
  | inr e ↦ rw e (IsTold-trans s t _ h (pingfall-IsTold from_value i x t))
]

visit_all-IsDue :
    (from_value : Text → PingFallSettings) (measured : InstanceData → Result LatencyError ℕ)
    (is : List InstanceData) (s t : ServerState) (changed : Bool)
    → IsDue s t changed
    → IsDue s
        (visit_all from_value measured is (t, changed)).0
        (visit_all from_value measured is (t, changed)).1
unfolding visit_all
visit_all-IsDue from_value measured [] s t changed h = h
visit_all-IsDue from_value measured (i ∷ is) s t changed h =
    visit_all-IsDue from_value measured is s _ _
      (visit-IsDue from_value i (measured i) s t changed h)

-- A round of the latency loop leaves the state as it is, its events included, or the last event that
-- it sends is a refresh.
pub latency_round-IsTold :
    (from_value : Text → PingFallSettings) (measured : InstanceData → Result LatencyError ℕ)
    (s : ServerState)
    → IsTold s (latency_round from_value measured s)
unfolding latency_round
latency_round-IsTold from_value measured s =
    let out : ServerState × Bool = visit_all from_value measured s.instances (s, false) in
    let h : IsDue s out.0 out.1 =
      visit_all-IsDue from_value measured s.instances s s false (inl refl) in
    elim (Bool-cases out.1) [
      | inl y ↦ rw y (inr (Sends-send s out.0 (subst (IsDue s out.0) y h)))
      | inr n ↦ rw n (subst (IsDue s out.0) n h)
    ]
