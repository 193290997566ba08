-- ===== src/Desktop/Unique.antt =====
-- The instances' local addresses and the scopes' hosts stay unique, and an origin changes only what
-- is its own.
use lab_stream_gate.Common.{
  ℕ, ◌≡◌, refl, sym, ap, subst, ◌∙◌, ◌≢◌, inl, inr, Bool, false, not, Option, List, [], ◌∷◌, ◌++◌,
  arith, retain, All, Bool-cases, Option-cases, Result-cases,
}
use lab_stream_gate.Common.Text.{Text, codes, same}
use lab_stream_gate.Daemon.{Listen, create_tcp_listener}
use lab_stream_gate.Desktop.{
  InstanceData, ScopeData, ServerState, refresh, send, update_instance_state, same_latency, Persist,
  is_written, no_directory, breaks_off, persist_scopes, find, any, update_first, remove_first,
  has_local, has_host, is_duplicate, relabel, new_instance, launch_at, launch_instance,
  remove_instance, allow_scope, remove_scope,
}
use lab_stream_gate.Desktop.Api.{
  close_instance, requested_scope, request_control, update_website_info, launch, with_info,
}

module _ {A : Type 0} (f : A → Text) where
  -- No two elements have the same text.
  abbrev pub IsUnique : List A → Type 0
  IsUnique [] = Unit
  IsUnique (x ∷ xs) = All (λ y. f x ≢ f y) xs × IsUnique xs

  All-single : (P : A → Type 0) (xs : List A) (y : A) → All P xs → P y → All P (xs ++ y ∷ [])
  All-single P [] y h p = (p, tt)
  All-single P (x ∷ xs) y (q, h) p = (q, All-single P xs y h p)

  any-false : (t : Text) (xs : List A) → any (λ x. same (f x) t) xs ≡ false → All (λ x. f x ≢ t) xs
  unfolding any
  any-false t [] h = tt
  any-false t (x ∷ xs) h = (λ e. ground arith, any-false t xs (ground arith))

  IsUnique-append :
      (xs : List A) (y : A)
      → any (λ x. same (f x) (f y)) xs ≡ false
      → IsUnique xs
      → IsUnique (xs ++ y ∷ [])
  unfolding any
  IsUnique-append [] y h u = (tt, tt)
  IsUnique-append (x ∷ xs) y h (p, u) = (
    All-single (λ z. f x ≢ f z) xs y p (λ e. ground arith),
    IsUnique-append xs y (ground arith) u,
  )

  All-retain_kept : (P : A → Type 0) (p : A → Bool) (xs : List A) → All P xs → All P (retain p xs)
  All-retain_kept P p [] h = tt
  All-retain_kept P p (x ∷ xs) (q, h) = elim (Bool-cases (p x)) [
    | inl y ↦ rw y (q, All-retain_kept P p xs h)
    | inr y ↦ rw y (All-retain_kept P p xs h)
  ]

  retain-IsUnique : (p : A → Bool) (xs : List A) → IsUnique xs → IsUnique (retain p xs)
  retain-IsUnique p [] u = tt
  retain-IsUnique p (x ∷ xs) (q, u) = elim (Bool-cases (p x)) [
    | inl y ↦ rw y (All-retain_kept (λ z. f x ≢ f z) p xs q, retain-IsUnique p xs u)
    | inr y ↦ rw y (retain-IsUnique p xs u)
  ]

  All-update_first :
      (P : Text → Type 0) (p : A → Bool) (g : A → A) (xs : List A)
      → ((x : A) → f (g x) ≡ f x)
      → All (λ x. P (f x)) xs
      → All (λ x. P (f x)) (update_first p g xs)
  unfolding update_first
  All-update_first P p g [] e h = tt
  All-update_first P p g (x ∷ xs) e (q, h) = elim (Bool-cases (p x)) [
    | inl y ↦ rw y (subst P (sym (e x)) q, h)
    | inr y ↦ rw y (q, All-update_first P p g xs e h)
  ]

  update_first-IsUnique :
      (p : A → Bool) (g : A → A) (xs : List A)
      → ((x : A) → f (g x) ≡ f x)
      → IsUnique xs
      → IsUnique (update_first p g xs)
  unfolding update_first
  update_first-IsUnique p g [] e u = tt
  update_first-IsUnique p g (x ∷ xs) e (q, u) = elim (Bool-cases (p x)) [
    | inl y ↦ rw y (subst (λ t. All (λ z. t ≢ f z) xs) (sym (e x)) q, u)
    | inr y ↦ rw y (All-update_first (λ t. f x ≢ t) p g xs e q, update_first-IsUnique p g xs e u)
  ]

  All-remove_first :
      (P : A → Type 0) (p : A → Bool) (xs : List A) → All P xs → All P (remove_first p xs)
  unfolding remove_first
  All-remove_first P p [] h = tt
  All-remove_first P p (x ∷ xs) (q, h) = elim (Bool-cases (p x)) [
    | inl y ↦ rw y h
    | inr y ↦ rw y (q, All-remove_first P p xs h)
  ]

  remove_first-IsUnique : (p : A → Bool) (xs : List A) → IsUnique xs → IsUnique (remove_first p xs)
  unfolding remove_first
  remove_first-IsUnique p [] u = tt
  remove_first-IsUnique p (x ∷ xs) (q, u) = elim (Bool-cases (p x)) [
    | inl y ↦ rw y u
    | inr y ↦ rw y (All-remove_first (λ z. f x ≢ f z) p xs q, remove_first-IsUnique p xs u)
  ]

abbrev pub local_of : InstanceData → Text
local_of i = i.local

abbrev pub host_of : ScopeData → Text
host_of s = s.host

pub record IsTidy (s : ServerState) : Type 0 where
  pub locals : IsUnique local_of s.instances
  pub hosts : IsUnique host_of s.scopes

pub persist_scopes-lists :
    (io : Persist) (s : ServerState)
    → ((persist_scopes io s).instances ≡ s.instances) × ((persist_scopes io s).scopes ≡ s.scopes)
unfolding persist_scopes
persist_scopes-lists is_written s = (refl, refl)
persist_scopes-lists no_directory s = (refl, refl)
persist_scopes-lists breaks_off s = (refl, refl)

persist_scopes-IsTidy : (io : Persist) (s : ServerState) → IsTidy s → IsTidy (persist_scopes io s)
unfolding persist_scopes
persist_scopes-IsTidy is_written s v = record { locals = v.locals; hosts = v.hosts }
persist_scopes-IsTidy no_directory s v = v
persist_scopes-IsTidy breaks_off s v = record { locals = v.locals; hosts = v.hosts }

update_instance_state-IsTidy :
    (i : InstanceData) (elapsed : Option ℕ) (s : ServerState)
    → IsTidy s
    → IsTidy (update_instance_state i elapsed s).0
unfolding update_instance_state
update_instance_state-IsTidy i elapsed s v =
    let is_it : InstanceData → Bool = λ j. same j.remote i.remote in
    elim (Option-cases (find is_it s.instances)) [
      | inl e ↦ rw (e, update_instance_state) v
      | inr (j, e) ↦ elim (Bool-cases (same_latency j.latency elapsed)) [
        | inl y ↦ rw (e, update_instance_state) (rw y v)
        | inr n ↦
            rw (e, update_instance_state)
              (rw n (record {
                locals =
                    update_first-IsUnique local_of is_it
                      (λ (j : InstanceData). record j { latency = elapsed }) s.instances (λ x. refl)
                      v.locals;
                hosts = v.hosts;
              }))
      ]
    ]

launch_at-IsTidy :
    (measured : Option ℕ) (requested : InstanceData) (local : Text) (s : ServerState)
    → IsTidy s
    → IsTidy (launch_at measured requested local s).0
unfolding launch_at new_instance
launch_at-IsTidy measured requested local s v =
    elim (Bool-cases (any (has_local local) s.instances)) [
      | inl y ↦ rw y v
      | inr n ↦ elim (Option-cases (find (is_duplicate requested) s.instances)) [
        | inr (i, e) ↦
            rw (n, e)
              (record {
                locals =
                    update_first-IsUnique local_of (is_duplicate requested)
                      (relabel requested.label) s.instances (λ x. refl) v.locals;
                hosts = v.hosts;
              })
        | inl e ↦
            let made = new_instance requested local in
            let pushed = send refresh (record s { instances = s.instances ++ made ∷ [] }) in
            let tidy : IsTidy pushed = record {
              locals = IsUnique-append local_of s.instances made n v.locals;
              hosts = v.hosts;
            } in
            rw (n, e) (update_instance_state-IsTidy made measured pushed tidy)
      ]
    ]

launch-IsTidy :
    (l : Listen) (measured : Option ℕ) (origin : Text) (requested : InstanceData) (s : ServerState)
    → IsTidy s
    → IsTidy (launch l measured origin requested s).0
unfolding launch launch_instance
launch-IsTidy l measured origin requested s v = elim (Result-cases (create_tcp_listener l)) [
  | inl (local, e) ↦
      rw (e, launch, launch_instance)
        (launch_at-IsTidy measured (record requested { scope_host = origin }) local s v)
  | inr (x, e) ↦ rw (e, launch, launch_instance) v
]

remove_instance-IsTidy :
    (local : Text) (s : ServerState) → IsTidy s → IsTidy (remove_instance local s).0
unfolding remove_instance
remove_instance-IsTidy local s v =
    let u = retain-IsUnique local_of (λ i. not (has_local local i)) s.instances v.locals in
    record { locals = ground (arith, u); hosts = ground (arith, v.hosts) }

close_instance-IsTidy :
    (origin local : Text) (s : ServerState) → IsTidy s → IsTidy (close_instance origin local s).0
unfolding close_instance
close_instance-IsTidy origin local s v = elim (Option-cases (find (has_local local) s.instances)) [
  | inl e ↦ rw (e, close_instance) v
  | inr (i, e) ↦ elim (Bool-cases (same i.scope_host origin)) [
    | inl y ↦ rw (e, close_instance) (rw y (remove_instance-IsTidy local s v))
    | inr n ↦ rw (e, close_instance) (rw n v)
  ]
]

request_control-IsTidy :
    (io : Persist) (origin : Text) (body : Option ScopeData) (s : ServerState)
    → IsTidy s
    → IsTidy (request_control io origin body s).0
unfolding request_control
request_control-IsTidy io origin body s v = elim (Bool-cases (any (has_host origin) s.scopes)) [
  | inl y ↦ rw y v
  | inr n ↦
      let made = requested_scope origin body in
      let h : made.host ≡ origin = host_of_requested body in
      let w : IsTidy (record s { scopes = s.scopes ++ made ∷ [] }) = record {
        locals = v.locals;
        hosts =
            IsUnique-append host_of s.scopes made (ap (λ t. any (has_host t) s.scopes) h ∙ n)
              v.hosts;
      } in
      let u = persist_scopes-IsTidy io _ w in rw n (record { locals = u.locals; hosts = u.hosts })
]
  where
    host_of_requested : (b : Option ScopeData) → (requested_scope origin b).host ≡ origin
    host_of_requested b = ground arith

allow_scope-IsTidy :
    (io : Persist) (host : Text) (s : ServerState) → IsTidy s → IsTidy (allow_scope io host s)
unfolding allow_scope
allow_scope-IsTidy io host s v =
    let allow = λ (x : ScopeData). record x { state = codes "allowed" } in
    let w : IsTidy (record s { scopes = update_first (has_host host) allow s.scopes }) = record {
      locals = v.locals;
      hosts = update_first-IsUnique host_of (has_host host) allow s.scopes (λ x. refl) v.hosts;
    } in
    let u = persist_scopes-IsTidy io _ w in record { locals = u.locals; hosts = u.hosts }

remove_scope-IsTidy :
    (io : Persist) (host : Text) (s : ServerState) → IsTidy s → IsTidy (remove_scope io host s)
unfolding remove_scope
remove_scope-IsTidy io host s v = elim (Option-cases (find (has_host host) s.scopes)) [
  | inl e ↦ rw (e, remove_scope) v
  | inr (scope, e) ↦
      let left = retain (λ i. not (same i.scope_host scope.host)) s.instances in
      let w : IsTidy
          (record s { scopes = remove_first (has_host host) s.scopes; instances = left }) =
        record {
          locals = retain-IsUnique local_of _ s.instances v.locals;
          hosts = remove_first-IsUnique host_of (has_host host) s.scopes v.hosts;
        } in
      let u = persist_scopes-IsTidy io _ w in
      rw (e, remove_scope) (record { locals = u.locals; hosts = u.hosts })
]

update_website_info-IsTidy :
    (io : Persist) (origin : Text) (body : ScopeData) (s : ServerState)
    → IsTidy s
    → IsTidy (update_website_info io origin body s).0
unfolding update_website_info
update_website_info-IsTidy io origin body s v =
    elim (Option-cases (find (has_host origin) s.scopes)) [
      | inl e ↦ rw (e, update_website_info) v
      | inr (scope, e) ↦
          let w : IsTidy
              (record s { scopes = update_first (has_host origin) (with_info body) s.scopes }) =
            record {
              locals = v.locals;
              hosts =
                  update_first-IsUnique host_of (has_host origin) (with_info body) s.scopes
                    (λ x. refl) v.hosts;
            } in
          let u = persist_scopes-IsTidy io _ w in
          rw (e, update_website_info) (record { locals = u.locals; hosts = u.hosts })
    ]

-- A request to the interface, or an operation of the window.
pub data Step : ServerState → ServerState → Type 0 where
  launches :
      (l : Listen) (measured : Option ℕ) (origin : Text) (requested : InstanceData)
      (s : ServerState)
      → Step s (launch l measured origin requested s).0
  closes : (origin local : Text) (s : ServerState) → Step s (close_instance origin local s).0
  removes : (local : Text) (s : ServerState) → Step s (remove_instance local s).0
  asks :
      (io : Persist) (origin : Text) (body : Option ScopeData) (s : ServerState)
      → Step s (request_control io origin body s).0
  updates :
      (io : Persist) (origin : Text) (body : ScopeData) (s : ServerState)
      → Step s (update_website_info io origin body s).0
  allows : (io : Persist) (host : Text) (s : ServerState) → Step s (allow_scope io host s)
  forgets : (io : Persist) (host : Text) (s : ServerState) → Step s (remove_scope io host s)

pub data Reach (s : ServerState) : ServerState → Type 0 where
  here : Reach s s
  next : {t u : ServerState} → Reach s t → Step t u → Reach s u

Step-IsTidy : {s t : ServerState} → Step s t → IsTidy s → IsTidy t
Step-IsTidy (launches l measured origin requested s) v =
    launch-IsTidy l measured origin requested s v
Step-IsTidy (closes origin local s) v = close_instance-IsTidy origin local s v
Step-IsTidy (removes local s) v = remove_instance-IsTidy local s v
Step-IsTidy (asks io origin body s) v = request_control-IsTidy io origin body s v
Step-IsTidy (updates io origin body s) v = update_website_info-IsTidy io origin body s v
Step-IsTidy (allows io host s) v = allow_scope-IsTidy io host s v
Step-IsTidy (forgets io host s) v = remove_scope-IsTidy io host s v

-- After any history of requests and of operations of the window, no two instances have one local
-- address and no two scopes have one host, if that was so before.
pub Reach-IsTidy : (s t : ServerState) → IsTidy s → Reach s t → IsTidy t
Reach-IsTidy s t v r = go r
  where
    go : {u : ServerState} → Reach s u → IsTidy u
    go here = v
    go (next q st) = Step-IsTidy st (go q)
