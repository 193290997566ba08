-- ===== src/Daemon/Permission.antt =====
-- What the origins' handlers keep, and which pages they let control the daemon.
use lab_stream_gate.Common.{
  ◌-◌, ◌≡◌, refl, sym, ap, ◌∙◌, ◌≢◌, ◌↔◌, inl, inr, true, false, not, ◌&&◌, ◌||◌, ◌≤◌, some, List,
  [], ◌∷◌, ◌++◌, arith, if◌then◌else◌, length, take, drop, length-append, take-append-drop,
  drop-append, ok, err, Bool-cases,
}
use lab_stream_gate.Common.Text.{Text, same}
use lab_stream_gate.Http.{accepted, created, forbidden}
use lab_stream_gate.Daemon.{
  Origins, contains_text, without, drop_pending, with_locks, add_allowed_origin,
  remove_allowed_origin, add_pending_origin, get_cors_status, ends_with, allow_origin,
}

contains_text-append :
    (os ps : List Text) (s : Text)
    → contains_text (os ++ ps) s ≡ (contains_text os s || contains_text ps s)
unfolding contains_text
contains_text-append [] ps s = refl
contains_text-append (o ∷ os) ps s = ground (arith, contains_text-append os ps s)

contains_text-without :
    (s t : Text) (os : List Text)
    → contains_text (without s os) t ≡ (contains_text os t && not (same t s))
unfolding contains_text without
contains_text-without s t [] = refl
contains_text-without s t (o ∷ os) = ground (arith, contains_text-without s t os)

contains_text-drop_pending :
    (s t : Text) (os : List Text)
    → contains_text (drop_pending s os) t ≡ (contains_text os t && not (same t s))
unfolding drop_pending
contains_text-drop_pending s t os = ground (arith, contains_text-without s t os)

-- No origin is both allowed and pending.
unfoldable pub IsApart : Origins → Type 0
IsApart s = (t : Text) → (contains_text s.allowed t && contains_text s.pending t) ≡ false

-- The requests that change the origins.
pub data Step : Origins → Origins → Type 0 where
  allows : (req : Text) (s : Origins) → Step s (add_allowed_origin req s).0
  forbids : (req : Text) (s : Origins) → Step s (remove_allowed_origin req s).0
  asks : (req : Text) (s : Origins) → Step s (add_pending_origin req s).0

pub data Reach (s : Origins) : Origins → Type 0 where
  here : Reach s s
  next : {t u : Origins} → Reach s t → Step t u → Reach s u

Step-IsApart : {s t : Origins} → Step s t → IsApart s → IsApart t
unfolding IsApart add_allowed_origin remove_allowed_origin add_pending_origin with_locks
    contains_text
Step-IsApart (allows req s) h t = ground (
  arith,
  h t,
  contains_text-append s.allowed (req ∷ []) t,
  contains_text-drop_pending req t s.pending,
)
Step-IsApart (forbids req s) h t =
    ground (
      arith,
      h t,
      contains_text-without req t s.allowed,
      contains_text-drop_pending req t s.pending,
    )
Step-IsApart (asks req s) h t = ground (arith, h t, contains_text-append s.pending (req ∷ []) t)

-- The origins of a daemon that has just started.
abbrev pub no_origins : Origins
no_origins = record {
  allowed = [];
  pending = [];
  allowed_poisoned = false;
  pending_poisoned = false;
}

-- After any history of requests since the daemon started, no origin is both allowed and pending.
pub Reach-IsApart : (t : Origins) → Reach no_origins t → IsApart t
unfolding IsApart contains_text
Reach-IsApart t r = go r
  where
    go : {u : Origins} → Reach no_origins u → IsApart u
    go here = λ o. refl
    go (next r st) = Step-IsApart st (go r)

-- With healthy locks, a page whose origin has just been allowed is told so, one that has just been
-- taken off is refused, and one that has just asked is told to wait, unless it is allowed already.
pub get_cors_status_after :
    (req : Text) (s : Origins)
    → s.allowed_poisoned ≡ false
    → s.pending_poisoned ≡ false
    → (get_cors_status (some req) (add_allowed_origin req s).0 ≡ ok accepted)
      × (get_cors_status (some req) (remove_allowed_origin req s).0 ≡ err forbidden)
      × (get_cors_status (some req) (add_pending_origin req s).0
          ≡ (if contains_text s.allowed req then ok accepted else err created))
unfolding get_cors_status add_allowed_origin remove_allowed_origin add_pending_origin with_locks
    contains_text
get_cors_status_after req s p q = (
  ground (arith, contains_text-append s.allowed (req ∷ []) req),
  ground (
    arith,
    contains_text-without req req s.allowed,
    contains_text-drop_pending req req s.pending,
  ),
  ground (arith, contains_text-append s.pending (req ∷ []) req),
)

-- A request about one origin changes the answer for no other.
get_cors_status_others :
    (req other : Text) (s : Origins)
    → req ≢ other
    → (get_cors_status (some other) (add_allowed_origin req s).0 ≡ get_cors_status (some other) s)
      × (get_cors_status (some other) (remove_allowed_origin req s).0
          ≡ get_cors_status (some other) s)
      × (get_cors_status (some other) (add_pending_origin req s).0 ≡ get_cors_status (some other) s)
unfolding get_cors_status add_allowed_origin remove_allowed_origin add_pending_origin with_locks
    contains_text
get_cors_status_others req other s n = (
  ground (
    arith,
    contains_text-append s.allowed (req ∷ []) other,
    contains_text-drop_pending req other s.pending,
  ),
  ground (
    arith,
    contains_text-without req other s.allowed,
    contains_text-drop_pending req other s.pending,
  ),
  ground (arith, contains_text-append s.pending (req ∷ []) other),
)

ends_with_iff :
    (s suffix : Text) → (ends_with s suffix ≡ true) ↔ ((start : Text) × (s ≡ start ++ suffix))
unfolding ends_with
ends_with_iff s suffix = (
  λ h.
      let e : drop (length s - length suffix) s ≡ suffix = ground arith in
      (
        take (length s - length suffix) s,
        sym (take-append-drop (length s - length suffix) s)
            ∙ ap (λ x. take (length s - length suffix) s ++ x) e,
      ),
  λ (start, e).
      let n : length s - length suffix ≡ length start =
        omega (arith, ap length e, length-append start suffix) in
      let l : length suffix ≤ length s = omega (arith, ap length e, length-append start suffix) in
      let d : drop (length s - length suffix) s ≡ suffix =
        ap (λ k. drop k s) n ∙ ap (drop (length start)) e ∙ drop-append start suffix in
      ground arith,
)

-- The predicate of the CORS layer accepts an origin exactly when it is some text, of any kind or
-- none, followed by an allowed origin.
pub allow_origin_iff :
    (os : List Text) (origin : Text)
    → (allow_origin os origin ≡ true)
      ↔ ((o : Text) × (start : Text) × (contains_text os o ≡ true) × (origin ≡ start ++ o))
unfolding allow_origin contains_text
allow_origin_iff [] origin = (λ h. absurd (cc), λ (o, start, h, e). absurd (cc))
allow_origin_iff (a ∷ os) origin =
    let ih = allow_origin_iff os origin in
    let here_iff = ends_with_iff origin a in
    elim (Bool-cases (ends_with origin a)) [
      | inl y ↦
          let (start, e) = here_iff.0 y in (λ h. (a, start, ground arith, e), λ p. ground arith)
      | inr n ↦ (
        λ h. let (o, start, c, e) = ih.0 (ground arith) in (o, start, ground arith, e),
        λ (o, start, c, e). elim (Bool-cases (same a o)) [
          | inl same_text ↦
              let t : a ≡ o = ground arith in
              absurd (ground (arith, here_iff.1 (start, e ∙ ap (λ x. start ++ x) (sym t))))
          | inr other ↦ ground (arith, ih.1 (o, start, ground arith, e))
        ],
      )
    ]
