-- ===== src/Gateway/Validate/Keys.antt =====
-- Which keys `validate_key` of crates/wsrx/src/cli/serve.rs accepts.
use lab_stream_gate.Common.{
  ℕ, ◌≤◌, ◌≡◌, refl, ap, ◌↔◌, ◌⊎◌, true, List, [], ◌∷◌, ◌++◌, arith, all, length, All, ok, err,
}
use lab_stream_gate.Common.Text.{Text, bytes, utf8}
use lab_stream_gate.Http.{http_error, bad_request}
use lab_stream_gate.Gateway.Validate.{is_key_byte, validate_key, key_message}

-- A letter, a digit, a dash or an underscore.
abbrev pub IsKeyChar : ℕ → Type 0
IsKeyChar c =
    ((b'0' ≤ c) × (c ≤ b'9'))
    ⊎ ((b'A' ≤ c) × (c ≤ b'Z'))
    ⊎ ((b'a' ≤ c) × (c ≤ b'z'))
    ⊎ (c ≡ b'-')
    ⊎ (c ≡ b'_')

is_key_byte_iff : (c : ℕ) → (is_key_byte c ≡ true) ↔ IsKeyChar c
unfolding is_key_byte
is_key_byte_iff c = (λ h. ground arith, λ h. ground arith)

-- Only an ASCII character has a UTF-8 form of key bytes, and that is itself.
all-utf8 :
    (c : ℕ) (s : List ℕ)
    → all is_key_byte (utf8 c ++ s) ≡ true
    → (utf8 c ≡ c ∷ []) × IsKeyChar c × (all is_key_byte s ≡ true)
unfolding utf8 is_key_byte
all-utf8 c s h = ground arith

bytes-key :
    (key : Text) → all is_key_byte (bytes key) ≡ true → (bytes key ≡ key) × All IsKeyChar key
unfolding bytes
bytes-key [] h = (refl, tt)
bytes-key (c ∷ s) h =
    let (one, good, rest) = all-utf8 c (bytes s) h in
    let (same_rest, goods) = bytes-key s rest in (rw (one, same_rest), (good, goods))

key-bytes : (key : Text) → All IsKeyChar key → (bytes key ≡ key) × (all is_key_byte key ≡ true)
unfolding bytes is_key_byte utf8
key-bytes [] h = (refl, refl)
key-bytes (c ∷ s) h = let (e, a) = key-bytes s h.1 in (rw e (ground arith), ground arith)

-- A key is accepted exactly when it has 16 to 128 characters, each a letter, a digit, a dash or an
-- underscore of ASCII; any other key is answered with status 400.
pub validate_key_iff :
    (key : Text)
    → ((validate_key key ≡ ok tt) ↔ ((16 ≤ length key) × (length key ≤ 128) × All IsKeyChar key))
      × ((validate_key key ≡ ok tt) ⊎ (validate_key key ≡ err (http_error bad_request key_message)))
unfolding validate_key
validate_key_iff key =
    ((accepted, λ h. let (e, a) = key-bytes key h.2 in rw e (ground arith)), ground arith)
  where
    accepted : validate_key key ≡ ok tt → (16 ≤ length key) × (length key ≤ 128) × All IsKeyChar key
    accepted h =
        let (e, goods) = bytes-key key (ground arith) in
        let l : length (bytes key) ≡ length key = ap length e in (ground arith, ground arith, goods)
