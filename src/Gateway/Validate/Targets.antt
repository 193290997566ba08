-- ===== src/Gateway/Validate/Targets.antt =====
-- Which targets `validate_target` of crates/wsrx/src/cli/serve.rs accepts.
use lab_stream_gate.Common.{
  ℕ, ◌≤◌, ◌≡◌, refl, ◌≢◌, ◌↔◌, ◌⊎◌, inl, inr, true, false, none, some, List, [], ◌∷◌, ◌++◌, arith,
  is_empty, all, All, ok, err, Option-cases, Bool-cases, Result-cases, is_some,
}
use lab_stream_gate.Common.Text.{Text, bytes, utf8, to_ascii_lowercase}
use lab_stream_gate.Common.Parse.{
  rsplit_once, parse_u16, Free, rsplit_once-eq_some, rsplit_once-append,
}
use lab_stream_gate.Http.{HttpError, http_error, bad_request, forbidden}
use lab_stream_gate.Net.{AddrText, SocketAddr}
use lab_stream_gate.Gateway.Validate.{
  is_host_byte, contains_host, named_host, target_host, validate_target, host_message,
}

abbrev pub IsHostChar : ℕ → Type 0
IsHostChar c =
    ((b'0' ≤ c) × (c ≤ b'9'))
    ⊎ ((b'A' ≤ c) × (c ≤ b'Z'))
    ⊎ ((b'a' ≤ c) × (c ≤ b'z'))
    ⊎ (c ≡ b'.')
    ⊎ (c ≡ b'-')

host-utf8 :
    (c : ℕ) (s : List ℕ)
    → all is_host_byte (utf8 c ++ s) ≡ true
    → IsHostChar c × (all is_host_byte s ≡ true)
unfolding utf8 is_host_byte
host-utf8 c s h = ground arith

bytes-host : (host : Text) → all is_host_byte (bytes host) ≡ true → All IsHostChar host
unfolding bytes
bytes-host [] h = tt
bytes-host (c ∷ s) h = let (good, rest) = host-utf8 c (bytes s) h in (good, bytes-host s rest)

host-bytes : (host : Text) → All IsHostChar host → all is_host_byte (bytes host) ≡ true
unfolding bytes is_host_byte utf8
host-bytes [] h = refl
host-bytes (c ∷ s) h = ground (arith, host-bytes s h.1)

-- The text is an element of the list.
abbrev pub OneOf : Text → List Text → Type 0
OneOf h [] = ⊥
OneOf h (a ∷ hosts) = (a ≡ h) ⊎ OneOf h hosts

contains_host_iff : (hosts : List Text) (h : Text) → (contains_host hosts h ≡ true) ↔ OneOf h hosts
unfolding contains_host
contains_host_iff [] h = (λ e. cc, λ e. absurd e)
contains_host_iff (a ∷ hosts) h =
    let ih = contains_host_iff hosts h in (λ e. ground (arith, ih.0), λ e. ground (arith, ih.1))

-- The target names the host: as the address of a literal socket address, or as a name of host
-- characters before the last colon, behind which a port number stands.
pub data Names (net : AddrText) (target host : Text) : Type 0 where
  literal :
      (a : SocketAddr)
      → net.parse_socket_addr target ≡ some a
      → net.ip_to_string a.ip ≡ host
      → Names net target host
  named :
      (h p : Text) (port : ℕ)
      → net.parse_socket_addr target ≡ none
      → target ≡ h ++ b':' ∷ p
      → Free b':' p
      → h ≢ []
      → All IsHostChar h
      → parse_u16 p ≡ some port
      → to_ascii_lowercase h ≡ host
      → Names net target host

abbrev HostText : Text → Text → Text → Type 0
HostText target h p =
    (rsplit_once b':' target ≡ some (h, p))
    × (is_empty h ≡ false)
    × (all is_host_byte (bytes h) ≡ true)
    × (is_some (parse_u16 p) ≡ true)

named_host-HostText :
    (target host : Text)
    → named_host target ≡ ok host
    → (h : Text) × (p : Text) × HostText target h p × (to_ascii_lowercase h ≡ host)
unfolding named_host
named_host-HostText target host e = elim (Option-cases (rsplit_once b':' target)) [
  | inl n ↦ absurd (ground arith)
  | inr ((h, p), s) ↦ (h, p, (s, ground arith, ground arith, ground arith), ground arith)
]

HostText-named_host :
    (target h p : Text) → HostText target h p → named_host target ≡ ok (to_ascii_lowercase h)
unfolding named_host
HostText-named_host target h p (s, n, a, q) = ground arith

parse_port : (p : Text) → is_some (parse_u16 p) ≡ true → (n : ℕ) × (parse_u16 p ≡ some n)
parse_port p h = ground arith

target_host-Names :
    (net : AddrText) (target host : Text) → target_host net target ≡ ok host → Names net target host
unfolding target_host
target_host-Names net target host e = elim (Option-cases (net.parse_socket_addr target)) [
  | inr (a, l) ↦ literal a l (ground arith)
  | inl l ↦
      let (h, p, (s, n, a, q), lower) = named_host-HostText target host (ground arith) in
      let (whole, free) = rsplit_once-eq_some b':' target h p s in
      let (port, read) = parse_port p q in
      named h p port l whole free (λ (nil : h ≡ []). ground arith) (bytes-host h a) read lower
]

Names-target_host :
    (net : AddrText) (target host : Text) → Names net target host → target_host net target ≡ ok host
unfolding target_host
Names-target_host net target host (literal a l e) = ground arith
Names-target_host net target host (named [] p port l whole free nonempty good read lower) =
    absurd (nonempty refl)
Names-target_host net target host (named (c ∷ h) p port l whole free nonempty good read lower) =
    let split : rsplit_once b':' target ≡ some (c ∷ h, p) =
      rw whole (rsplit_once-append b':' (c ∷ h) p free) in
    let found =
      HostText-named_host target (c ∷ h) p (split, refl, host-bytes (c ∷ h) good, rw read) in
    ground arith

target_host-error :
    (net : AddrText) (target : Text) (e : HttpError)
    → target_host net target ≡ err e
    → e.status ≡ bad_request
unfolding target_host named_host
target_host-error net target e h = ground arith

contains_host-false :
    (hosts : List Text) (h : Text) → ¬ OneOf h hosts → contains_host hosts h ≡ false
contains_host-false hosts h n = elim (Bool-cases (contains_host hosts h)) [
  | inl y ↦ absurd (n ((contains_host_iff hosts h).0 y))
  | inr f ↦ f
]

-- A target is accepted exactly when it names an allowed host, and refused with status 403 exactly
-- when it names a host that is not allowed; so any other answer is for a target that names none.
pub validate_target_iff :
    (net : AddrText) (target : Text) (allowed : List Text)
    → ((validate_target net target allowed ≡ ok tt)
        ↔ ((host : Text) × Names net target host × OneOf host allowed))
      × ((validate_target net target allowed ≡ err (http_error forbidden host_message))
          ↔ ((host : Text) × Names net target host × (¬ OneOf host allowed)))
unfolding validate_target
validate_target_iff net target allowed = ((allows, allowed_ok), (forbids, forbidden_err))
  where
    allows :
        validate_target net target allowed ≡ ok tt
        → (host : Text) × Names net target host × OneOf host allowed
    allows h = elim (Result-cases (target_host net target)) [
      | inl (host, e) ↦ (
        host,
        target_host-Names net target host e,
        (contains_host_iff allowed host).0 (ground arith),
      )
      | inr (e, f) ↦ absurd (ground arith)
    ]

    allowed_ok :
        ((host : Text) × Names net target host × OneOf host allowed)
        → validate_target net target allowed ≡ ok tt
    allowed_ok (host, n, o) =
        ground (arith, Names-target_host net target host n, (contains_host_iff allowed host).1 o)

    forbids :
        validate_target net target allowed ≡ err (http_error forbidden host_message)
        → (host : Text) × Names net target host × (¬ OneOf host allowed)
    forbids h = elim (Result-cases (target_host net target)) [
      | inl (host, e) ↦ (
        host,
        target_host-Names net target host e,
        λ o. ground (arith, (contains_host_iff allowed host).1 o),
      )
      | inr (e, f) ↦ absurd (ground (arith, target_host-error net target e f))
    ]

    forbidden_err :
        ((host : Text) × Names net target host × (¬ OneOf host allowed))
        → validate_target net target allowed ≡ err (http_error forbidden host_message)
    forbidden_err (host, n, o) =
        ground (arith, Names-target_host net target host n, contains_host-false allowed host o)
