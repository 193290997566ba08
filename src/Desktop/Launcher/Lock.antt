-- ===== src/Desktop/Launcher/Lock.antt =====
-- crates/desktop/src/launcher.rs: a second start finds the port that the first has written.
use mathlib.Core.List.{reverse-cons, reverse-reverse, concat-ne-nil}
use lab_stream_gate.Common.{
  ℕ, zero, suc, ◌+◌, ◌-◌, ◌*◌, ◌/◌, ◌%◌, ◌≤◌, ◌<◌, ◌≡◌, ◌≢◌, refl, sym, ap, ◌∙◌, inl, inr, Bool,
  true, false, Option, some, [], ◌∷◌, ◌++◌, reverse, append-nil, append_assoc, ltb, leb, arith,
  if◌then◌else◌, Bool-cases, Option-cases, All, All-append, ◌&&◌,
}
use lab_stream_gate.Common.Text.{Text}
use lab_stream_gate.Common.Parse.{is_whitespace, trim_start, trim, u16_digits, parse_u16}
use lab_stream_gate.Desktop.Launcher.{
  LockFile, no_lock, holds_text, to_decimal, write_lock_file, remove_lock_file, read_lock_file_port,
  notify_existing_instance, notify_at, try_notify_existing_instance,
}

abbrev IsDigit : ℕ → Type 0
IsDigit c = (b'0' ≤ c) × (c ≤ b'9')

-- Ten to the fuel.
unfoldable bound : ℕ → ℕ
bound zero = 1
bound (suc fuel) = 10 * bound fuel

to_decimal-IsDigit : (fuel n : ℕ) → All IsDigit (to_decimal fuel n)
unfolding to_decimal
to_decimal-IsDigit zero n = tt
to_decimal-IsDigit (suc fuel) n = elim (Bool-cases (ltb n 10)) [
  | inl y ↦ rw (y, to_decimal) ((omega arith, ground arith), tt)
  | inr y ↦
      rw (y, to_decimal)
        (All-append IsDigit (to_decimal fuel (n / 10)) _ (to_decimal-IsDigit fuel (n / 10))
          ((omega arith, omega arith), tt))
]

to_decimal-ne_nil : (fuel n : ℕ) → to_decimal (suc fuel) n ≢ []
unfolding to_decimal
to_decimal-ne_nil fuel n e = elim (Bool-cases (ltb n 10)) [
  | inl y ↦ cc (rw (y, to_decimal) at e)
  | inr y ↦ concat-ne-nil (b'0' + n % 10) (to_decimal fuel (n / 10)) (rw (y, to_decimal) at e)
]

u16_digits-digit :
    (acc d : ℕ) (s : Text)
    → d < 10
    → acc * 10 + d < 0x10000
    → u16_digits acc ((b'0' + d) ∷ s) ≡ u16_digits (acc * 10 + d) s
unfolding u16_digits
u16_digits-digit acc d s h l =
    let e : acc * 10 + (b'0' + d - b'0') ≡ acc * 10 + d = omega arith in
    let t : (leb b'0' (b'0' + d) && leb (b'0' + d) b'9' && ltb (acc * 10 + d) 0x10000) ≡ true =
      ground arith in
    rw (e, t) refl

-- Reading the digits of a number gives it.
u16_digits-to_decimal :
    (fuel n : ℕ) (s : Text)
    → n < bound fuel
    → n < 0x10000
    → u16_digits 0 (to_decimal fuel n ++ s) ≡ u16_digits n s
unfolding to_decimal bound
u16_digits-to_decimal zero n s h l = let e : n ≡ 0 = omega arith in ap (λ m. u16_digits m s) (sym e)
u16_digits-to_decimal (suc fuel) n s h l = elim (Bool-cases (ltb n 10)) [
  | inl y ↦
      let d : n < 10 = ground arith in
      let e : 0 * 10 + n ≡ n = omega arith in
      let g = u16_digits-digit 0 n s d (omega arith) in rw (y, to_decimal) (rw e at g)
  | inr y ↦
      let d : ℕ = n % 10 in
      let g = u16_digits-digit (n / 10) d s (omega arith) (omega arith) in
      let e : n / 10 * 10 + d ≡ n = omega arith in
      let ih = u16_digits-to_decimal fuel (n / 10) ((b'0' + d) ∷ s) (omega arith) (omega arith) in
      rw (y, append_assoc (to_decimal fuel (n / 10)) ((b'0' + d) ∷ []) s, to_decimal)
        (ih ∙ rw e at g)
]

trim_start_digits : (s : Text) → All IsDigit s → trim_start s ≡ s
unfolding trim_start is_whitespace
trim_start_digits [] h = refl
trim_start_digits (c ∷ s) h = ground (arith, h.0)

reverse-All : (s : Text) → All IsDigit s → All IsDigit (reverse s)
reverse-All [] h = tt
reverse-All (c ∷ s) h =
    rw (reverse-cons c s) (All-append IsDigit (reverse s) (c ∷ []) (reverse-All s h.1) (h.0, tt))

trim_digits : (s : Text) → All IsDigit s → trim s ≡ s
unfolding trim
trim_digits s h =
    let a = trim_start_digits s h in
    let b = trim_start_digits (reverse s) (reverse-All s h) in rw (a, b) (reverse-reverse s)

parse_u16_digits : (s : Text) → s ≢ [] → All IsDigit s → parse_u16 s ≡ u16_digits 0 s
unfolding parse_u16
parse_u16_digits [] e h = absurd (e refl)
parse_u16_digits (c ∷ []) e h = refl
parse_u16_digits (c ∷ d ∷ s) e h = ground (arith, h.0)

parse_u16-to_decimal :
    (port : ℕ) → port < 0x10000 → parse_u16 (trim (to_decimal 5 port)) ≡ some port
unfolding bound
parse_u16-to_decimal port h =
    let digits = to_decimal-IsDigit 5 port in
    let s : Text = to_decimal 5 port in
    let a = trim_digits s digits in
    let b = parse_u16_digits s (to_decimal-ne_nil 4 port) digits in
    let c = u16_digits-to_decimal 5 port [] (omega arith) h in
    let d : u16_digits port [] ≡ some port = unfold u16_digits in refl in
    cc (a, b, c, d, append-nil s)

try_notify_at :
    (removes : Bool) (reply : ℕ → Option Bool) (port : ℕ) (s : Text)
    → parse_u16 (trim s) ≡ some port
    → try_notify_existing_instance removes reply (holds_text s) ≡ (
        if notify_existing_instance reply port
        then (holds_text s, true)
        else (remove_lock_file removes (holds_text s), false))
unfolding try_notify_existing_instance read_lock_file_port notify_at
try_notify_at removes reply port s h =
    let g : read_lock_file_port removes (holds_text s) ≡ (holds_text s, some port) =
      rw (h, read_lock_file_port) refl in
    ap (notify_at removes reply) g

-- The start ends, and the lock stays.
abbrev pub gives_way : LockFile → LockFile × Bool
gives_way lock = (lock, true)

-- The start goes on, without a lock file unless its removal fails.
abbrev pub goes_on : Bool → LockFile → LockFile × Bool
goes_on true lock = (no_lock, false)
goes_on false lock = (lock, false)

-- A start that finds the lock file that a running instance has written for its port asks exactly that
-- port. If the answer has a status of success, it gives way and keeps the lock; with any other answer,
-- or none, it goes on, and the lock file is gone unless its removal fails.
pub try_notify_existing_instance-write_lock_file :
    (removes : Bool) (reply : ℕ → Option Bool) (port : ℕ)
    → port < 0x10000
    → (reply port ≡ some true
        → try_notify_existing_instance removes reply (write_lock_file port)
          ≡ gives_way (write_lock_file port))
      × (reply port ≢ some true
          → try_notify_existing_instance removes reply (write_lock_file port)
            ≡ goes_on removes (write_lock_file port))
unfolding write_lock_file notify_existing_instance
try_notify_existing_instance-write_lock_file removes reply port h =
    let s : Text = to_decimal 5 port in
    let e = try_notify_at removes reply port s (parse_u16-to_decimal port h) in
    elim (Option-cases (reply port)) [
      | inl z ↦ (
        λ y. absurd (cc),
        λ n. e ∙ rw (z, notify_existing_instance) (removed removes (holds_text s)),
      )
      | inr (true, z) ↦ (λ y. e ∙ rw (z, notify_existing_instance) refl, λ n. absurd (n z))
      | inr (false, z) ↦ (
        λ y. absurd (cc),
        λ n. e ∙ rw (z, notify_existing_instance) (removed removes (holds_text s)),
      )
    ]
  where
    removed : (r : Bool) (lock : LockFile) → (remove_lock_file r lock, false) ≡ goes_on r lock
    removed true lock = unfold remove_lock_file in refl
    removed false lock = unfold remove_lock_file in refl
