-- ===== src/Desktop/NetworkLogs/Lines.antt =====
-- crates/desktop/src/ui/network_logs.rs: `find_level` of a line made of a head, a level and a rest.
use lab_stream_gate.Common.{
  ℕ, zero, suc, ◌+◌, ◌-◌, ◌≤◌, ◌<◌, ◌≡◌, refl, ◌⊎◌, inl, inr, Bool, true, false, ◌&&◌, ◌||◌, none,
  some, List, [], ◌∷◌, ◌++◌, leb, ◌==◌, length, drop, arith, All, is_some, length-append,
}
use lab_stream_gate.Common.Text.{Text, codes, is_ascii_alphanumeric}
use lab_stream_gate.Common.Parse.{starts_with, strip_prefix, strip_prefix-append}
use lab_stream_gate.Desktop.{find}
use lab_stream_gate.Desktop.NetworkLogs.{get, level_colors, find_level, level_color}
use lab_stream_gate.Desktop.NetworkLogs.Words.{at_word, not_at_word}
use lab_stream_gate.Desktop.NetworkLogs.Levels.{level_at, first_level, find_level-first_level}

-- The bytes of `%Y-%m-%dT%H:%M:%S%.6fZ`.
abbrev pub is_stamp_byte : ℕ → Bool
is_stamp_byte c =
    (leb b'0' c && leb c b'9') || c == b'-' || c == b':' || c == b'.' || c == b'T' || c == b'Z'

abbrev pub IsStamp : Text → Type 0
IsStamp = All (λ c. is_stamp_byte c ≡ true)

-- A byte of the timestamp or a space.
abbrev pub is_head_byte : ℕ → Bool
is_head_byte c = is_stamp_byte c || c == b' '

abbrev pub IsHead : Text → Type 0
IsHead = All (λ c. is_head_byte c ≡ true)

-- No level starts the text.
abbrev pub NoLevel : Text → Type 0
NoLevel s = All (λ (row : Text × ℕ). starts_with row.0 s ≡ false) level_colors

NoLevel-after_space : (s : Text) → NoLevel (b' ' ∷ s)
unfolding strip_prefix
NoLevel-after_space s = ground arith

NoLevel-in_head :
    (c d : ℕ) (s : Text) → is_head_byte c ≡ true → is_head_byte d ≡ true → NoLevel (c ∷ d ∷ s)
unfolding strip_prefix
NoLevel-in_head c d s h k = ground arith

NoLevel-before : (p r : Text) (j : ℕ) → IsHead p → j ≤ length p → NoLevel (drop j (p ++ b' ' ∷ r))
NoLevel-before [] r zero h l = NoLevel-after_space r
NoLevel-before [] r (suc j) h l = absurd (omega arith)
NoLevel-before (c ∷ []) r zero h l = NoLevel-in_head c b' ' r h.0 refl
NoLevel-before (c ∷ d ∷ p) r zero h l = NoLevel-in_head c d (p ++ b' ' ∷ r) h.0 h.1.0
NoLevel-before (c ∷ p) r (suc j) h l = NoLevel-before p r j h.1 (omega arith)

level_at-none :
    (line : Text) (i : ℕ) (levels : List (Text × ℕ))
    → All (λ (row : Text × ℕ). starts_with row.0 (drop i line) ≡ false) levels
    → level_at line i levels ≡ none
unfolding level_at
level_at-none line i [] h = refl
level_at-none line i ((w, color) ∷ levels) h =
    rw (not_at_word line w i h.0, level_at) (level_at-none line i levels h.1)

first_level-skip :
    (line : Text) (levels : List (Text × ℕ)) (k n i : ℕ)
    → ((j : ℕ) → i ≤ j → j < i + k → level_at line j levels ≡ none)
    → first_level line levels (k + n) i ≡ first_level line levels n (i + k)
unfolding first_level
first_level-skip line levels zero n i h = ground arith
first_level-skip line levels (suc k) n i h =
    let here = h i (omega arith) (omega arith) in
    let rest =
      first_level-skip line levels k n (suc i) (λ j a b. h j (omega arith) (omega arith)) in
    let e : suc k + n ≡ suc (k + n) = omega arith in
    let f : i + suc k ≡ suc i + k = omega arith in rw (e, here, f, first_level) rest

first_level-some :
    (line w : Text) (levels : List (Text × ℕ)) (n i : ℕ)
    → 0 < n
    → level_at line i levels ≡ some w
    → first_level line levels n i ≡ some (i, w)
unfolding first_level
first_level-some line w levels zero i l h = absurd (omega arith)
first_level-some line w levels (suc n) i l h = rw (h, first_level) refl

pub drop_to : (p r : Text) (n : ℕ) → drop (length p + n) (p ++ r) ≡ drop n r
drop_to [] r n = ground arith
drop_to (c ∷ p) r n =
    let e : suc (length p) + n ≡ suc (length p + n) = omega arith in rw e (drop_to p r n)

pub get_to : (p r : Text) (n : ℕ) → get (length p + n) (p ++ r) ≡ get n r
unfolding get
get_to [] r n = ground arith
get_to (c ∷ p) r n =
    let e : suc (length p) + n ≡ suc (length p + n) = omega arith in rw e (get_to p r n)

-- A line of `head`, a space, `level`, a space and `rest`.
abbrev pub line_of : Text → Text → Text → Text
line_of head level rest = head ++ b' ' ∷ (level ++ b' ' ∷ rest)

pub drop_to_level :
    (head level rest : Text)
    → drop (suc (length head)) (line_of head level rest) ≡ level ++ b' ' ∷ rest
drop_to_level head level rest =
    let e : length head + 1 ≡ suc (length head) = omega arith in
    rw e at (drop_to head (b' ' ∷ (level ++ b' ' ∷ rest)) 1)

starts_with-append : (w r : Text) → starts_with w (w ++ r) ≡ true
starts_with-append w r = rw (strip_prefix-append w r, starts_with) refl

level_stands :
    (head level rest : Text) → at_word (line_of head level rest) level (suc (length head)) ≡ true
unfolding at_word get is_ascii_alphanumeric
level_stands head level rest =
    let line = line_of head level rest in
    let starts : starts_with level (drop (suc (length head)) line) ≡ true =
      rw (drop_to_level head level rest) (starts_with-append level (b' ' ∷ rest)) in
    let a : length head + 0 ≡ suc (length head) - 1 = omega arith in
    let before : get (suc (length head) - 1) line ≡ some b' ' =
      rw a at (get_to head (b' ' ∷ (level ++ b' ' ∷ rest)) 0) in
    let b : length head + suc (length level + 0) ≡ suc (length head) + length level = omega arith in
    let after : get (suc (length head) + length level) line ≡ some b' ' =
      rw (b, get_to level (b' ' ∷ rest) 0) at
        (get_to head (b' ' ∷ (level ++ b' ' ∷ rest)) (suc (length level + 0))) in
    rw (starts, before, after, at_word) (ground arith)

pub level_of :
    (level : Text)
    → is_some (level_color level) ≡ true
    → (level ≡ codes "TRACE")
      ⊎ (level ≡ codes "DEBUG")
      ⊎ (level ≡ codes "INFO")
      ⊎ (level ≡ codes "WARN")
      ⊎ (level ≡ codes "ERROR")
unfolding level_color find
level_of level h = ground arith

-- Of the five levels only the one that is there starts what is there.
only_level :
    (level rest : Text)
    → is_some (level_color level) ≡ true
    → All
        (λ (row : Text × ℕ). (row.0 ≡ level) ⊎ (starts_with row.0 (level ++ b' ' ∷ rest) ≡ false))
        level_colors
unfolding strip_prefix
only_level level rest h = ground (arith, level_of level h)

other_stands :
    (head level rest w : Text)
    → (w ≡ level) ⊎ (starts_with w (level ++ b' ' ∷ rest) ≡ false)
    → (w ≡ level) ⊎ (at_word (line_of head level rest) w (suc (length head)) ≡ false)
other_stands head level rest w (inl e) = inl e
other_stands head level rest w (inr e) =
    inr (not_at_word (line_of head level rest) w _ (rw (drop_to_level head level rest) e))

level_at_line :
    (head level rest : Text)
    → is_some (level_color level) ≡ true
    → level_at (line_of head level rest) (suc (length head)) level_colors ≡ some level
unfolding level_at
level_at_line head level rest h =
    let (t, (d, (i, (w, (e, u))))) = only_level level rest h in
    let stands = other_stands head level rest in
    ground (
      arith,
      level_of level h,
      level_stands head level rest,
      stands _ t,
      stands _ d,
      stands _ i,
      stands _ w,
      stands _ e,
    )

pub find_level-line_of :
    (head level rest : Text)
    → IsHead head
    → is_some (level_color level) ≡ true
    → find_level (line_of head level rest) ≡ some (suc (length head), level)
find_level-line_of head level rest h l =
    let line = line_of head level rest in
    let n : length line ≡ length head + suc (length (level ++ b' ' ∷ rest)) =
      length-append head (b' ' ∷ (level ++ b' ' ∷ rest)) in
    let m : length (level ++ b' ' ∷ rest) ≡ length level + suc (length rest) =
      length-append level (b' ' ∷ rest) in
    let k : ℕ = length line - suc (length head) in
    let e : suc (length head) + k ≡ length line = omega arith in
    let skipped = rw e at (
      first_level-skip line level_colors (suc (length head)) k 0 (λ j a b.
        level_at-none line j level_colors
          (NoLevel-before head (level ++ b' ' ∷ rest) j h (omega arith)))) in
    let found =
      first_level-some line level level_colors k (suc (length head)) (omega arith)
        (level_at_line head level rest l) in
    let z : 0 + suc (length head) ≡ suc (length head) = omega arith in
    cc (find_level-first_level line, skipped, found, z)
