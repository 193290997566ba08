-- ===== src/Gateway/Auth.antt =====
-- crates/wsrx/src/cli/serve.rs: `authorize_management` and `constant_time_eq`.
use lab_stream_gate.Common.{
  ◌⊎◌, ℕ, ◌≡◌, refl, ◌≢◌, ◌↔◌, inl, inr, ap, Bool, true, ◌&&◌, Option, none, some, List, ◌++◌,
  arith, ◌==◌, if◌then◌else◌, length, Result, ok, err, Option-cases,
}
use lab_stream_gate.Common.Text.{Text, codes, bytes}
use lab_stream_gate.Common.Parse.{strip_prefix, strip_prefix-eq_some, strip_prefix-append}
use lab_stream_gate.Http.{StatusCode, unauthorized}

-- `ConstantTimeEq` of the crate subtle, with what it documents for slices of one length.
pub record ConstantTime : Type 0 where
  pub ct_eq : List ℕ → List ℕ → Bool
  pub ct_eq_iff : (xs ys : List ℕ) → length xs ≡ length ys → (ct_eq xs ys ≡ true) ↔ (xs ≡ ys)

abbrev pub bearer : Text
bearer = codes "Bearer "

unfoldable pub constant_time_eq : ConstantTime → List ℕ → List ℕ → Bool
constant_time_eq ct left right = length left == length right && ct.ct_eq left right

-- `value.strip_prefix("Bearer ").unwrap_or(value)`.
unfoldable pub without_bearer : Text → Text
without_bearer value = elim (strip_prefix bearer value) [ some rest ↦ rest | none ↦ value ]

-- The header is the text of `authorization`, if the request has one that is text. `ok` stands for
-- the call of the handler behind.
unfoldable pub authorize_management :
    ConstantTime → Text → Option Text → Result StatusCode (Unit {0})
unfolding constant_time_eq without_bearer
authorize_management ct secret none = err unauthorized
authorize_management ct secret (some value) =
    if constant_time_eq ct (bytes (without_bearer value)) (bytes secret)
    then ok tt
    else err unauthorized

constant_time_eq_iff :
    (ct : ConstantTime) (xs ys : List ℕ) → (constant_time_eq ct xs ys ≡ true) ↔ (xs ≡ ys)
unfolding constant_time_eq
constant_time_eq_iff ct xs ys = (
  λ h. (ct.ct_eq_iff xs ys (ground arith)).0 (ground arith),
  λ e. let l : length xs ≡ length ys = ap length e in ground (arith, (ct.ct_eq_iff xs ys l).1 e),
)

-- The credential of a header: what follows `Bearer `, or the whole value where it does not begin so.
pub data Credential (value credential : Text) : Type 0 where
  token : value ≡ bearer ++ credential → Credential value credential
  plain :
      ((rest : Text) → value ≢ bearer ++ rest) → value ≡ credential → Credential value credential

without_bearer-Credential : (value : Text) → Credential value (without_bearer value)
unfolding without_bearer
without_bearer-Credential value = elim (Option-cases (strip_prefix bearer value)) [
  | inr (r, e) ↦ rw (e, without_bearer) (token (strip_prefix-eq_some bearer value r e))
  | inl n ↦
      rw (n, without_bearer)
        (plain
          (λ rest e. ground (arith, ap (strip_prefix bearer) e, strip_prefix-append bearer rest))
          refl)
]

Credential-without_bearer : (value c : Text) → Credential value c → without_bearer value ≡ c
unfolding without_bearer
Credential-without_bearer value c (token e) = rw (e, strip_prefix-append bearer c, without_bearer)
Credential-without_bearer value c (plain n e) = elim (Option-cases (strip_prefix bearer value)) [
  | inr (r, s) ↦ absurd (n r (strip_prefix-eq_some bearer value r s))
  | inl s ↦ ground arith
]

-- A management request is let through exactly when it has an authorization header whose credential
-- has the bytes of the secret; any other is answered with status 401.
pub authorize_management_iff :
    (ct : ConstantTime) (secret : Text) (header : Option Text)
    → ((authorize_management ct secret header ≡ ok tt) ↔ (
        (value : Text) × (credential : Text) × (header ≡ some value)
        × Credential value credential
        × (bytes credential ≡ bytes secret)))
      × ((authorize_management ct secret header ≡ ok tt)
          ⊎ (authorize_management ct secret header ≡ err unauthorized))
unfolding authorize_management
authorize_management_iff ct secret none = ((λ h. cc, λ h. cc), inr refl)
authorize_management_iff ct secret (some value) =
    let same = constant_time_eq_iff ct (bytes (without_bearer value)) (bytes secret) in
    (
      (
        λ h. (
          value,
          without_bearer value,
          refl,
          without_bearer-Credential value,
          same.0 (ground arith),
        ),
        λ (v, c, e, d, b).
            let at : value ≡ v = ground arith in
            let w : without_bearer v ≡ c = Credential-without_bearer v c d in
            let eq : bytes (without_bearer value) ≡ bytes secret = rw (at, w) b in
            ground (arith, same.1 eq),
      ),
      ground arith,
    )
