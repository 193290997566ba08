-- ===== src/Desktop/NetworkLogs/Named.antt =====
-- crates/desktop/src/ui/network_logs.rs: `find_level` against a description of the levels of a line that
-- does not use the code's tests.
use lab_stream_gate.Common.{
  ℕ, zero, suc, ◌+◌, ◌-◌, ◌≡◌, refl, sym, ◌∙◌, inl, inr, Bool, true, false, not, ◌==◌, ◌&&◌, ◌||◌,
  Option, none, some, List, [], ◌∷◌, map, leb, if◌then◌else◌, length, drop, arith, Bool-cases,
  Option-cases,
}
use lab_stream_gate.Common.Text.{Text, codes, is_ascii_alphanumeric}
use lab_stream_gate.Common.Parse.{starts_with}
use lab_stream_gate.Desktop.NetworkLogs.{
  get, is_other, before_ok, after_ok, level_colors, find_level,
}
use lab_stream_gate.Desktop.NetworkLogs.Words.{at_word}
use lab_stream_gate.Desktop.NetworkLogs.Levels.{level_at, first_level, find_level-first_level}

-- A text that begins with an ASCII letter or digit.
abbrev pub begins_in_word : Text → Bool
begins_in_word [] = false
begins_in_word (c ∷ s) =
    (leb b'0' c && leb c b'9') || (leb b'A' c && leb c b'Z') || (leb b'a' c && leb c b'z')

-- No letter or digit stands before the offset.
abbrev pub is_free_before : Text → ℕ → Bool
is_free_before line zero = true
is_free_before line (suc i) = not (begins_in_word (drop i line))

-- The word stands at the offset and no letter or digit stands before it or behind it.
abbrev pub stands : Text → Text → ℕ → Bool
stands line word i =
    starts_with word (drop i line)
    && (is_free_before line i && not (begins_in_word (drop (i + length word) line)))

-- The first of the words that stands at the offset.
unfoldable pub named_at : Text → ℕ → List Text → Option Text
named_at line i [] = none
named_at line i (w ∷ words) =
    let rest = named_at line i words in if stands line w i then some w else rest

-- The first of `n` offsets from `i` at which one of the words stands, with that word.
unfoldable pub first_named : Text → List Text → ℕ → ℕ → Option (ℕ × Text)
unfolding named_at
first_named line words zero i = none
first_named line words (suc n) i =
    let rest = first_named line words n (suc i) in
    elim (named_at line i words) [ none ↦ rest | some w ↦ some (i, w) ]

is_other-get : (n : ℕ) (s : Text) → is_other (get n s) ≡ not (begins_in_word (drop n s))
unfolding get is_ascii_alphanumeric
is_other-get zero [] = refl
is_other-get zero (c ∷ s) = ground arith
is_other-get (suc n) [] = refl
is_other-get (suc n) (c ∷ s) = is_other-get n s

before_ok-is_free_before : (line : Text) (i : ℕ) → before_ok line i ≡ is_free_before line i
before_ok-is_free_before line zero = refl
before_ok-is_free_before line (suc i) =
    let e : suc i - 1 ≡ i = omega arith in
    let z : (suc i == 0) ≡ false = ground arith in rw (z, e) (is_other-get i line)

drop-past : (n : ℕ) (s : Text) → leb (length s) n ≡ true → drop n s ≡ []
drop-past zero [] h = refl
drop-past (suc n) [] h = refl
drop-past zero (c ∷ s) h = ground arith
drop-past (suc n) (c ∷ s) h = drop-past n s (ground (arith, h))

after_ok-begins_in_word :
    (line : Text) (end : ℕ) → after_ok line end ≡ not (begins_in_word (drop end line))
after_ok-begins_in_word line end = elim (Bool-cases (leb (length line) end)) [
  | inl y ↦ rw (y, drop-past end line y) refl
  | inr y ↦ rw y (is_other-get end line)
]

at_word-stands : (line word : Text) (i : ℕ) → at_word line word i ≡ stands line word i
unfolding at_word
at_word-stands line word i =
    rw (before_ok-is_free_before line i, after_ok-begins_in_word line (i + length word)) refl

level_at-named_at :
    (line : Text) (i : ℕ) (levels : List (Text × ℕ))
    → level_at line i levels ≡ named_at line i (map (λ row. row.0) levels)
unfolding level_at named_at
level_at-named_at line i [] = refl
level_at-named_at line i ((w, color) ∷ levels) =
    rw (at_word-stands line w i, level_at-named_at line i levels) refl

first_level-first_named :
    (line : Text) (levels : List (Text × ℕ)) (n i : ℕ)
    → first_level line levels n i ≡ first_named line (map (λ row. row.0) levels) n i
unfolding first_level first_named
first_level-first_named line levels zero i = refl
first_level-first_named line levels (suc n) i =
    let e = level_at-named_at line i levels in
    let ih = first_level-first_named line levels n (suc i) in
    elim (Option-cases (level_at line i levels)) [
      | inl z ↦ rw (z, sym e ∙ z, first_level, first_named) ih
      | inr (w, z) ↦ rw (z, sym e ∙ z, first_level, first_named) refl
    ]

-- `find_level` gives the first offset of a line at which one of the five levels stands, with no ASCII
-- letter or digit before or behind it, and that level; none when there is none.
pub find_level-first_named :
    (line : Text)
    → find_level line
      ≡ first_named line
          (codes "TRACE" ∷ codes "DEBUG" ∷ codes "INFO" ∷ codes "WARN" ∷ codes "ERROR" ∷ [])
          (length line)
          0
find_level-first_named line =
    find_level-first_level line ∙ first_level-first_named line level_colors (length line) 0
