-- ===== src/Desktop/Isolation.antt =====
-- What the requests of one origin change of what another one sees, and what an origin is told of its
-- scope.
use lab_stream_gate.Common.{
  ℕ, map, ◌≡◌, refl, ap, subst, ◌∙◌, ◌≢◌, inl, inr, Bool, true, false, not, Option, none, some,
  List, [], ◌∷◌, ◌++◌, arith, if◌then◌else◌, retain, All, ok, err, Bool-cases, Option-cases,
  Result-cases,
}
use lab_stream_gate.Common.Text.{Text, codes, same, Text-discrete, ℕ_discrete}
use lab_stream_gate.Http.{http_error, accepted, created, forbidden}
use lab_stream_gate.Daemon.{Listen, create_tcp_listener}
use lab_stream_gate.Desktop.{
  InstanceData, ScopeData, ServerState, refresh, send, update_instance_state, same_latency, Persist,
  find, any, update_first, remove_first, has_local, has_host, remove_instance, allow_scope,
  is_duplicate, relabel, new_instance, launch_at, launch_instance, remove_scope,
}
use lab_stream_gate.Desktop.Api.{
  get_instances, launch, close_instance, get_control_status, requested_scope, request_control,
  scope_message, pending,
}
use lab_stream_gate.Desktop.Unique.{IsUnique, IsTidy, local_of, persist_scopes-lists}

retain-others :
    (l : Text) (xs : List InstanceData)
    → All (λ x. l ≢ local_of x) xs
    → retain (λ i. not (has_local l i)) xs ≡ xs
retain-others l [] h = refl
retain-others l (x ∷ xs) (n, h) =
    let e : same x.local l ≡ false = ground arith in rw e (ap (◌∷◌ x) (retain-others l xs h))

retain-removed :
    (l other : Text) (i : InstanceData) (xs : List InstanceData)
    → IsUnique local_of xs
    → find (has_local l) xs ≡ some i
    → i.scope_host ≢ other
    → retain (λ (j : InstanceData). same j.scope_host other) (retain (λ j. not (has_local l j)) xs)
      ≡ retain (λ (j : InstanceData). same j.scope_host other) xs
unfolding find
retain-removed l other i [] u f n = refl
retain-removed l other i (x ∷ xs) (q, u) f n = elim (Bool-cases (same x.local l)) [
  | inl y ↦
      let e : x.local ≡ l = ground arith in
      let it : x ≡ i = ground arith in
      let m : same x.scope_host other ≡ false = ground arith in
      rw (y, m)
        (ap (retain (λ (j : InstanceData). same j.scope_host other))
          (retain-others l xs (subst (λ t. All (λ z. t ≢ local_of z) xs) e q)))
  | inr y ↦
      let g : find (has_local l) xs ≡ some i = ground arith in
      let ih = retain-removed l other i xs u g n in
      elim (Bool-cases (same x.scope_host other)) [
        | inl z ↦ rw (y, z) (ap (◌∷◌ x) ih)
        | inr z ↦ rw (y, z) ih
      ]
]

remove_instance-instances :
    (l : Text) (s : ServerState)
    → (remove_instance l s).0.instances ≡ retain (λ j. not (has_local l j)) s.instances
unfolding remove_instance
remove_instance-instances l s = ground arith

-- Where no two instances have one local address and no two scopes one host, a request of one
-- origin to close an instance changes nothing of what another origin sees, whatever local address
-- the request names.
pub get_instances-close_instance :
    (origin other local : Text) (s : ServerState)
    → IsTidy s
    → origin ≢ other
    → get_instances other (close_instance origin local s).0 ≡ get_instances other s
unfolding get_instances close_instance
get_instances-close_instance origin other local s v n =
    elim (Option-cases (find (has_local local) s.instances)) [
      | inl e ↦ rw (e, close_instance) refl
      | inr (i, e) ↦ elim (Bool-cases (same i.scope_host origin)) [
        | inr y ↦ rw (e, close_instance) (rw y refl)
        | inl y ↦
            let m : i.scope_host ≢ other = λ h. ground arith in
            rw (e, close_instance)
              (rw y (
                ap (retain (λ (j : InstanceData). same j.scope_host other))
                  (remove_instance-instances local s)
                ∙ retain-removed local other i s.instances v.locals e m))
      ]
    ]

retain-relabelled :
    (requested : InstanceData) (other : Text) (xs : List InstanceData)
    → requested.scope_host ≢ other
    → retain
        (λ (j : InstanceData). same j.scope_host other)
        (update_first (is_duplicate requested) (relabel requested.label) xs)
      ≡ retain (λ (j : InstanceData). same j.scope_host other) xs
unfolding update_first
retain-relabelled requested other [] n = refl
retain-relabelled requested other (x ∷ xs) n =
    let ih = retain-relabelled requested other xs n in
    elim (Bool-cases (is_duplicate requested x)) [
      | inl y ↦ let m : same x.scope_host other ≡ false = ground arith in rw (y, m) refl
      | inr y ↦ elim (Bool-cases (same x.scope_host other)) [
        | inl z ↦ rw (y, z) (ap (◌∷◌ x) ih)
        | inr z ↦ rw (y, z) ih
      ]
    ]

retain-added :
    (other : Text) (xs : List InstanceData) (y : InstanceData)
    → same y.scope_host other ≡ false
    → retain (λ (j : InstanceData). same j.scope_host other) (xs ++ y ∷ [])
      ≡ retain (λ (j : InstanceData). same j.scope_host other) xs
retain-added other [] y h = rw h refl
retain-added other (x ∷ xs) y h = ground (arith, retain-added other xs y h)

-- An instance but for its latency.
abbrev pub unmeasured : InstanceData → InstanceData
unmeasured i = record i { latency = none }

retain-measured :
    (p : InstanceData → Bool) (other : Text) (elapsed : Option ℕ) (xs : List InstanceData)
    → map unmeasured (
        retain
          (λ (j : InstanceData). same j.scope_host other)
          (update_first p (λ (j : InstanceData). record j { latency = elapsed }) xs))
      ≡ map unmeasured (retain (λ (j : InstanceData). same j.scope_host other) xs)
unfolding update_first
retain-measured p other elapsed [] = refl
retain-measured p other elapsed (x ∷ xs) =
    let ih = retain-measured p other elapsed xs in
    elim (Bool-cases (same x.scope_host other)) [
      | inl z ↦ elim (Bool-cases (p x)) [
        | inl y ↦ rw (y, z) refl
        | inr y ↦ rw (y, z) (ap (◌∷◌ (unmeasured x)) ih)
      ]
      | inr z ↦ elim (Bool-cases (p x)) [ inl y ↦ rw (y, z) refl | inr y ↦ rw (y, z) ih ]
    ]

get_instances-update_instance_state :
    (i : InstanceData) (elapsed : Option ℕ) (other : Text) (s : ServerState)
    → map unmeasured (get_instances other (update_instance_state i elapsed s).0)
      ≡ map unmeasured (get_instances other s)
unfolding get_instances update_instance_state
get_instances-update_instance_state i elapsed other s =
    let is_it : InstanceData → Bool = λ j. same j.remote i.remote in
    elim (Option-cases (find is_it s.instances)) [
      | inl e ↦ rw (e, update_instance_state) refl
      | inr (j, e) ↦ elim (Bool-cases (same_latency j.latency elapsed)) [
        | inl y ↦ rw (e, update_instance_state) (rw y refl)
        | inr n ↦
            rw (e, update_instance_state) (rw n (retain-measured is_it other elapsed s.instances))
      ]
    ]

get_instances-launch_at :
    (measured : Option ℕ) (requested : InstanceData) (other local : Text) (s : ServerState)
    → requested.scope_host ≢ other
    → map unmeasured (get_instances other (launch_at measured requested local s).0)
      ≡ map unmeasured (get_instances other s)
unfolding get_instances launch_at new_instance
get_instances-launch_at measured requested other local s n =
    elim (Bool-cases (any (has_local local) s.instances)) [
      | inl y ↦ rw y refl
      | inr m ↦ elim (Option-cases (find (is_duplicate requested) s.instances)) [
        | inr (i, e) ↦
            rw (m, e) (ap (map unmeasured) (retain-relabelled requested other s.instances n))
        | inl e ↦
            let made = new_instance requested local in
            let pushed = send refresh (record s { instances = s.instances ++ made ∷ [] }) in
            let a : get_instances other pushed ≡ get_instances other s =
              retain-added other s.instances made (ground arith) in
            rw (m, e)
              (get_instances-update_instance_state made measured other pushed
                ∙ ap (map unmeasured) a)
      ]
    ]

-- A request of one origin to launch an instance, with the measurement of latency that it starts,
-- changes nothing of what another origin sees but latencies.
pub get_instances-launch :
    (l : Listen) (measured : Option ℕ) (origin other : Text) (requested : InstanceData)
    (s : ServerState)
    → origin ≢ other
    → map unmeasured (get_instances other (launch l measured origin requested s).0)
      ≡ map unmeasured (get_instances other s)
unfolding launch launch_instance
get_instances-launch l measured origin other requested s n =
    elim (Result-cases (create_tcp_listener l)) [
      | inl (local, e) ↦
          rw (e, launch, launch_instance)
            (get_instances-launch_at measured (record requested { scope_host = origin }) other local
              s n)
      | inr (x, e) ↦ rw (e, launch, launch_instance) refl
    ]

module _ (p : ScopeData → Bool) where
  find-none : (xs : List ScopeData) → any p xs ≡ false → find p xs ≡ none
  unfolding find any
  find-none [] h = refl
  find-none (x ∷ xs) h = ground (arith, find-none xs)

  find-last :
      (xs : List ScopeData) (y : ScopeData)
      → any p xs ≡ false
      → p y ≡ true
      → find p (xs ++ y ∷ []) ≡ some y
  unfolding find any
  find-last [] y h g = ground arith
  find-last (x ∷ xs) y h g = ground (arith, find-last xs y)

  update_first-last :
      (f : ScopeData → ScopeData) (xs : List ScopeData) (y : ScopeData)
      → any p xs ≡ false
      → p y ≡ true
      → update_first p f (xs ++ y ∷ []) ≡ xs ++ f y ∷ []
  unfolding update_first any
  update_first-last f [] y h g = ground arith
  update_first-last f (x ∷ xs) y h g = ground (arith, update_first-last f xs y)

  remove_first-last :
      (xs : List ScopeData) (y : ScopeData)
      → any p xs ≡ false
      → p y ≡ true
      → remove_first p (xs ++ y ∷ []) ≡ xs
  unfolding remove_first any
  remove_first-last [] y h g = ground arith
  remove_first-last (x ∷ xs) y h g = ground (arith, remove_first-last xs y)

get_control_status-some :
    (origin : Text) (s : ServerState) (scope : ScopeData)
    → find (has_host origin) s.scopes ≡ some scope
    → get_control_status origin s ≡ (if same scope.state pending then ok created else ok accepted)
unfolding get_control_status
get_control_status-some origin s scope e = rw (e, get_control_status) refl

get_control_status-none :
    (origin : Text) (s : ServerState)
    → find (has_host origin) s.scopes ≡ none
    → get_control_status origin s ≡ err (http_error forbidden (scope_message origin))
unfolding get_control_status
get_control_status-none origin s e = rw (e, get_control_status) refl

request_control-scopes :
    (io : Persist) (origin : Text) (body : Option ScopeData) (s : ServerState)
    → any (has_host origin) s.scopes ≡ false
    → (request_control io origin body s).0.scopes ≡ s.scopes ++ requested_scope origin body ∷ []
unfolding request_control
request_control-scopes io origin body s n = rw n ((persist_scopes-lists io _).1)

allow_scope-scopes :
    (io : Persist) (host : Text) (s : ServerState)
    → (allow_scope io host s).scopes
      ≡ update_first
          (has_host host)
          (λ (x : ScopeData). record x { state = codes "allowed" })
          s.scopes
unfolding allow_scope
allow_scope-scopes io host s = (persist_scopes-lists io _).1

remove_scope-scopes :
    (io : Persist) (host : Text) (s : ServerState) (scope : ScopeData)
    → find (has_host host) s.scopes ≡ some scope
    → (remove_scope io host s).scopes ≡ remove_first (has_host host) s.scopes
unfolding remove_scope
remove_scope-scopes io host s scope e = rw (e, remove_scope) ((persist_scopes-lists io _).1)

requested_scope-host :
    (origin : Text) (body : Option ScopeData)
    → (has_host origin (requested_scope origin body) ≡ true)
      × ((requested_scope origin body).state ≡ pending)
unfolding requested_scope
requested_scope-host origin none = (ground arith, refl)
requested_scope-host origin (some body) = (ground arith, refl)

-- A page that is not known and asks for control is told that it is pending; once the scope is
-- allowed, it is told that it is accepted; and when the scope is removed, it is refused.
pub get_control_status_lifecycle :
    (io later : Persist) (origin : Text) (body : Option ScopeData) (s : ServerState)
    → any (has_host origin) s.scopes ≡ false
    → let t = (request_control io origin body s).0 in
      (get_control_status origin t ≡ ok created)
      × (get_control_status origin (allow_scope later origin t) ≡ ok accepted)
      × (get_control_status origin (remove_scope later origin t)
          ≡ err (http_error forbidden (scope_message origin)))
unfolding Text-discrete ℕ_discrete
get_control_status_lifecycle io later origin body s n =
    let made = requested_scope origin body in
    let t = (request_control io origin body s).0 in
    let p = has_host origin in
    let allow = λ (x : ScopeData). record x { state = codes "allowed" } in
    let (own, waits) = requested_scope-host origin body in
    let e : t.scopes ≡ s.scopes ++ made ∷ [] = request_control-scopes io origin body s n in
    let f : find p t.scopes ≡ some made = ap (find p) e ∙ find-last p s.scopes made n own in
    let a : (allow_scope later origin t).scopes ≡ s.scopes ++ allow made ∷ [] =
      allow_scope-scopes later origin t
      ∙ ap (update_first p allow) e
      ∙ update_first-last p allow s.scopes made n own in
    let r : (remove_scope later origin t).scopes ≡ s.scopes =
      remove_scope-scopes later origin t made f
      ∙ ap (remove_first p) e
      ∙ remove_first-last p s.scopes made n own in
    (
      get_control_status-some origin t made f ∙ ground (arith, waits),
      get_control_status-some origin (allow_scope later origin t) (allow made)
            (ap (find p) a ∙ find-last p s.scopes (allow made) n own)
          ∙ refl,
      get_control_status-none origin (remove_scope later origin t)
          (ap (find p) r ∙ find-none p s.scopes n),
    )
