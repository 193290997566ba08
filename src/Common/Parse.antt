-- ===== src/Common/Parse.antt =====
-- The functions of Rust's `str` that the program uses.
use Prim.Native.Nat.{ℕ, ◌+◌, ◌-◌, ◌*◌, ◌<◌}
use mathlib.Core.Path.{◌≡◌, refl}
use mathlib.Core.Logic.{◌≢◌, inl, inr}
use mathlib.Core.Bool.{Bool, true, false, ◌&&◌, ◌||◌}
use mathlib.Core.Option.{Option, none, some}
use mathlib.Core.List.{[], ◌∷◌, ◌++◌, reverse}
use native.Mathlib.Omega.{arith}
use lab_stream_gate.Common.Tests.{ltb, leb, ◌==◌, if◌then◌else◌, Option-cases}
use lab_stream_gate.Common.Lists.{All}
use lab_stream_gate.Common.Text.{Text}

-- `char::is_whitespace`.
unfoldable pub is_whitespace : ℕ → Bool
is_whitespace c =
    (leb 9 c && leb c 13)
    || c == 32
    || c == 0x85
    || c == 0xa0
    || c == 0x1680
    || (leb 0x2000 c && leb c 0x200a)
    || c == 0x2028
    || c == 0x2029
    || c == 0x202f
    || c == 0x205f
    || c == 0x3000

unfoldable pub trim_start : Text → Text
trim_start [] = []
trim_start (c ∷ s) = if is_whitespace c then trim_start s else c ∷ s

unfoldable pub trim : Text → Text
unfolding trim_start is_whitespace
trim s = reverse (trim_start (reverse (trim_start s)))

-- `str::strip_prefix`.
unfoldable pub strip_prefix : Text → Text → Option Text
strip_prefix [] s = some s
strip_prefix (p ∷ ps) [] = none
strip_prefix (p ∷ ps) (c ∷ s) = if p == c then strip_prefix ps s else none

abbrev pub starts_with : Text → Text → Bool
starts_with p s = elim (strip_prefix p s) [ none ↦ false | some r ↦ true ]

-- `str::contains` of a text.
unfoldable pub contains : Text → Text → Bool
unfolding strip_prefix
contains p [] = starts_with p []
contains p (c ∷ s) = starts_with p (c ∷ s) || contains p s

-- `str::rsplit_once`: the parts before and after the last `c`.
unfoldable pub rsplit_once : ℕ → Text → Option (Text × Text)
rsplit_once c [] = none
rsplit_once c (x ∷ s) = elim (rsplit_once c s) [
  | some (a, b) ↦ some (x ∷ a, b)
  | none ↦ if x == c then some ([], s) else none
]

-- `s.split(c).next()`: the text before the first `c`.
unfoldable pub split_first : ℕ → Text → Text
split_first c [] = []
split_first c (x ∷ s) = if x == c then [] else x ∷ split_first c s

-- The digits of `u16::from_str`, each step checked for overflow.
unfoldable pub u16_digits : ℕ → Text → Option ℕ
u16_digits acc [] = some acc
u16_digits acc (c ∷ s) =
    let next : ℕ = acc * 10 + (c - b'0') in
    let rest = u16_digits next s in
    if leb b'0' c && leb c b'9' && ltb next 0x10000 then rest else none

-- `str::parse::<u16>`: decimal digits, after at most one plus sign.
unfoldable pub parse_u16 : Text → Option ℕ
unfolding u16_digits
parse_u16 [] = none
parse_u16 (c ∷ []) = u16_digits 0 (c ∷ [])
parse_u16 (c ∷ d ∷ s) = if c == b'+' then u16_digits 0 (d ∷ s) else u16_digits 0 (c ∷ d ∷ s)

u16_digits-lt : (acc n : ℕ) (s : Text) → acc < 0x10000 → u16_digits acc s ≡ some n → n < 0x10000
unfolding u16_digits
u16_digits-lt acc n [] h e = ground arith
u16_digits-lt acc n (c ∷ s) h e = ground (arith, u16_digits-lt (acc * 10 + (c - b'0')) n s)

-- A number that is read fits its sixteen bits.
pub parse_u16-lt : (s : Text) (n : ℕ) → parse_u16 s ≡ some n → n < 0x10000
unfolding parse_u16
parse_u16-lt [] n e = cc
parse_u16-lt (c ∷ []) n e = u16_digits-lt 0 n (c ∷ []) (omega arith) e
parse_u16-lt (c ∷ d ∷ s) n e =
    ground (arith, u16_digits-lt 0 n (d ∷ s), u16_digits-lt 0 n (c ∷ d ∷ s))

-- The text has no `c`.
abbrev pub Free : ℕ → Text → Type 0
Free c = All (λ x. x ≢ c)

Free-of_rsplit_once : (c : ℕ) (s : Text) → rsplit_once c s ≡ none → Free c s
unfolding rsplit_once
Free-of_rsplit_once c [] e = tt
Free-of_rsplit_once c (x ∷ s) e = elim (Option-cases (rsplit_once c s)) [
  | inl n ↦ ground (arith, Free-of_rsplit_once c s n)
  | inr (p, h) ↦ ground arith
]

-- The parts rebuild the text, and the separator is its last.
pub rsplit_once-eq_some :
    (c : ℕ) (s a b : Text) → rsplit_once c s ≡ some (a, b) → (s ≡ a ++ c ∷ b) × Free c b
unfolding rsplit_once
rsplit_once-eq_some c [] a b e = absurd (cc)
rsplit_once-eq_some c (x ∷ s) a b e = elim (Option-cases (rsplit_once c s)) [
  | inl n ↦ ground (arith, Free-of_rsplit_once c s n)
  | inr ((a', b'), h) ↦ ground (arith, rsplit_once-eq_some c s a' b' h)
]

rsplit_once_of_Free : (c : ℕ) (b : Text) → Free c b → rsplit_once c b ≡ none
unfolding rsplit_once
rsplit_once_of_Free c [] h = refl
rsplit_once_of_Free c (x ∷ b) h = rw (rsplit_once_of_Free c b h.1, rsplit_once) (ground arith)

pub rsplit_once-append : (c : ℕ) (a b : Text) → Free c b → rsplit_once c (a ++ c ∷ b) ≡ some (a, b)
unfolding rsplit_once
rsplit_once-append c [] b h = rw (rsplit_once_of_Free c b h, rsplit_once) (ground arith)
rsplit_once-append c (x ∷ a) b h = rw (rsplit_once-append c a b h, rsplit_once)

-- `strip_prefix` takes off exactly the prefix.
pub strip_prefix-eq_some : (p s r : Text) → strip_prefix p s ≡ some r → s ≡ p ++ r
unfolding strip_prefix
strip_prefix-eq_some [] s r e = ground arith
strip_prefix-eq_some (p ∷ ps) [] r e = absurd (cc)
strip_prefix-eq_some (p ∷ ps) (c ∷ s) r e = ground (arith, strip_prefix-eq_some ps s r)

pub strip_prefix-append : (p r : Text) → strip_prefix p (p ++ r) ≡ some r
unfolding strip_prefix
strip_prefix-append [] r = refl
strip_prefix-append (p ∷ ps) r = ground (arith, strip_prefix-append ps r)
