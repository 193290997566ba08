-- ===== src/Desktop/NetworkLogs.antt =====
-- crates/desktop/src/ui/network_logs.rs: the log page's document and how it is highlighted. A `&str`
-- is the list of its UTF-8 bytes here, since the code's offsets count bytes.
pub mod Words
pub mod Levels
pub mod Named
pub mod Highlight
pub mod Editor
pub mod Within
pub mod Runs
pub mod Lines
pub mod Trimming
pub mod Formatting
pub mod Document
mod Tests
use lab_stream_gate.Common.{
  ℕ, zero, suc, ◌+◌, ◌-◌, ◌%◌, ◌^◌, min, Bool, true, false, not, ◌&&◌, ◌||◌, Option, none, some,
  List, [], ◌∷◌, ◌++◌, reverse, leb, ltb, ◌==◌, if◌then◌else◌, length, take, drop, is_empty, retain,
  Result, ok, err, ◌>>=◌,
}
use lab_stream_gate.Common.Text.{Text, codes, same, is_ascii_alphanumeric}
use lab_stream_gate.Common.Parse.{starts_with}
use lab_stream_gate.Desktop.{find}

-- `str::find` of a text: the offset of its first occurrence.
unfoldable pub find_text : Text → Text → Option ℕ
find_text w [] = if starts_with w [] then some 0 else none
find_text w (c ∷ s) =
    let rest = find_text w s in
    if starts_with w (c ∷ s) then some 0 else elim rest [ none ↦ none | some n ↦ some (suc n) ]

-- The byte at an offset.
unfoldable pub get {ℓ} : {A : Type ℓ} → ℕ → List A → Option A
get n [] = none
get zero (x ∷ xs) = some x
get (suc n) (x ∷ xs) = get n xs

abbrev pub is_other : Option ℕ → Bool
is_other none = true
is_other (some c) = not (is_ascii_alphanumeric c)

abbrev pub before_ok : Text → ℕ → Bool
before_ok line start = start == 0 || is_other (get (start - 1) line)

abbrev pub after_ok : Text → ℕ → Bool
after_ok line end = leb (length line) end || is_other (get end line)

-- The loop of `find_word` from `search`, for a number of rounds.
unfoldable pub find_word_from : ℕ → Text → Text → ℕ → Option ℕ
unfolding find_text get is_ascii_alphanumeric
find_word_from zero line word search = none
find_word_from (suc n) line word search = elim (find_text word (drop search line)) [
  | none ↦ none
  | some rel ↦
      let start : ℕ = search + rel in
      let end : ℕ = start + length word in
      let rest = find_word_from n line word end in
      if before_ok line start && after_ok line end then some start else rest
]

unfoldable pub find_word : Text → Text → Option ℕ
unfolding find_word_from
find_word line word = find_word_from (suc (length line)) line word 0

-- `LEVEL_COLORS`.
abbrev pub level_colors : List (Text × ℕ)
level_colors =
    (codes "TRACE", 0x9A6FCE)
    ∷ (codes "DEBUG", 0x4F9CF6)
    ∷ (codes "INFO", 0x3FB950)
    ∷ (codes "WARN", 0xD29922)
    ∷ (codes "ERROR", 0xF85149)
    ∷ []

-- `best.is_none_or(|(bp, _)| pos < bp)`.
abbrev pub is_better : ℕ → Option (ℕ × Text) → Bool
is_better pos none = true
is_better pos (some (bp, level)) = ltb pos bp

-- The loop of `find_level`, with the best found so far.
unfoldable pub find_level_from : Text → List (Text × ℕ) → Option (ℕ × Text) → Option (ℕ × Text)
unfolding find_word
find_level_from line [] best = best
find_level_from line ((level, color) ∷ levels) best =
    find_level_from line levels (elim (find_word line level) [
      | none ↦ best
      | some pos ↦ if is_better pos best then some (pos, level) else best
    ])

unfoldable pub find_level : Text → Option (ℕ × Text)
unfolding find_level_from
find_level line = find_level_from line level_colors none

unfoldable pub level_color : Text → Option ℕ
unfolding find
level_color level = elim (find (λ (row : Text × ℕ). same row.0 level) level_colors) [
  | none ↦ none
  | some row ↦ some row.1
]

-- The color and the opacity in percent.
unfoldable pub preview_color : Text → Option (ℕ × ℕ)
preview_color level =
    if same level (codes "TRACE")
    then some (0x9A6FCE, 40)
    else if same level (codes "DEBUG")
    then some (0x4F9CF6, 50)
    else if same level (codes "INFO")
    then some (0x3FB950, 60)
    else if same level (codes "WARN")
    then some (0xD29922, 85)
    else if same level (codes "ERROR")
    then some (0xF85149, 100)
    else none

-- The length in bytes of the white space that ends a text, which is given backwards; 0 for none.
unfoldable pub space_end : Text → ℕ
space_end [] = 0
space_end (a ∷ s) = if (leb 9 a && leb a 13) || a == 32 then 1 else elim s [
  | [] ↦ 0
  | b ∷ t ↦ if b == 0xc2 && (a == 0x85 || a == 0xa0) then 2 else elim t [
    | [] ↦ 0
    | c ∷ u ↦
        if (c == 0xe1 && b == 0x9a && a == 0x80)
          || (c == 0xe2
              && b == 0x80
              && ((leb 0x80 a && leb a 0x8a) || a == 0xa8 || a == 0xa9 || a == 0xaf))
          || (c == 0xe2 && b == 0x81 && a == 0x9f)
          || (c == 0xe3 && b == 0x80 && a == 0x80)
        then 3
        else 0
  ]
]

-- The text, given backwards, without the white space that ends it; `skip` bytes belong to a
-- character that is left out.
unfoldable pub trim_back : ℕ → Text → Text
unfolding space_end
trim_back skip [] = []
trim_back (suc skip) (a ∷ s) = trim_back skip s
trim_back zero (a ∷ s) = elim (space_end (a ∷ s)) [ zero ↦ a ∷ s | suc n ↦ trim_back n s ]

-- `str::trim_end`.
unfoldable pub trim_end : Text → Text
unfolding trim_back
trim_end s = reverse (trim_back 0 (reverse s))

-- `struct LineSpans`; a range is its two ends.
pub record LineSpans : Type 0 where
  pub timestamp : ℕ × ℕ
  pub level : ℕ × ℕ
  pub mod_range : Option (ℕ × ℕ)

-- Slicing a text off the boundary of a character.
pub data Panic : Type 0 where
  off_boundary : Panic

-- A slice that starts with the byte given, which must not be within a character.
unfoldable pub slice_at : Option ℕ → Text → Result Panic Text
slice_at none s = ok s
slice_at (some c) s = if leb 0x80 c && ltb c 0xc0 then err off_boundary else ok s

-- `&s[n..]`, for an `n` up to the length.
unfoldable pub slice_from : ℕ → Text → Result Panic Text
unfolding get slice_at
slice_from n s = slice_at (get n s) (drop n s)

-- The range of the module, which starts at `start`.
unfoldable pub module_range : Text → ℕ → Result Panic (Option (ℕ × ℕ))
unfolding slice_from find_text
module_range line start =
    if ltb start (length line)
    then (do
      rest ← slice_from start line
      ok (elim (find_text (codes ": ") rest) [
        | none ↦ none
        | some rel ↦ some (start, start + rel + 1)
      ]))
    else ok none

unfoldable pub spans_for_line : Text → Result Panic (Option LineSpans)
unfolding find_level module_range trim_end
spans_for_line line = elim (find_level line) [
  | none ↦ ok none
  | some (offset, level) ↦ (do
    found ← module_range line (offset + length level + 1)
    ok (
        some (record {
          timestamp = (0, length (trim_end (take offset line)));
          level = (offset, offset + length level);
          mod_range = found;
        })))
]
