-- ===== src/Desktop/NetworkLogs/Levels.antt =====
-- crates/desktop/src/ui/network_logs.rs: `find_level` finds the first level of a line.
use lab_stream_gate.Common.{
  ℕ, zero, suc, ◌≤◌, ◌≡◌, ◌≢◌, refl, sym, inl, inr, Bool, Option, none, some, List, [], ◌∷◌, ltb,
  if◌then◌else◌, length, arith, Bool-cases, Option-cases, All,
}
use lab_stream_gate.Common.Text.{Text, is_ascii_alphanumeric}
use lab_stream_gate.Desktop.NetworkLogs.{
  find_word, level_colors, is_better, find_level_from, find_level,
}
use lab_stream_gate.Desktop.NetworkLogs.Words.{at_word, first_where, Alnum, find_word-first_where}

-- The first row whose word stands at an offset.
unfoldable pub level_at : Text → ℕ → List (Text × ℕ) → Option Text
unfolding at_word
level_at line i [] = none
level_at line i ((w, color) ∷ levels) =
    let rest = level_at line i levels in if at_word line w i then some w else rest

-- The first of `n` offsets from `i` at which a level stands, with that level.
unfoldable pub first_level : Text → List (Text × ℕ) → ℕ → ℕ → Option (ℕ × Text)
unfolding level_at
first_level line levels zero i = none
first_level line levels (suc n) i =
    let rest = first_level line levels n (suc i) in
    elim (level_at line i levels) [ none ↦ rest | some w ↦ some (i, w) ]

-- The earlier of two findings, the first one on a tie.
abbrev earlier : Option (ℕ × Text) → Option (ℕ × Text) → Option (ℕ × Text)
earlier none b = b
earlier (some a) none = some a
earlier (some (p, w)) (some (q, v)) = if ltb q p then some (q, v) else some (p, w)

earlier_assoc : (a b c : Option (ℕ × Text)) → earlier (earlier a b) c ≡ earlier a (earlier b c)
earlier_assoc none b c = refl
earlier_assoc (some a) none c = refl
earlier_assoc (some (p, w)) (some (q, v)) none = ground arith
earlier_assoc (some (p, w)) (some (q, v)) (some (r, u)) = ground arith

abbrev at_level : Text → Option ℕ → Option (ℕ × Text)
at_level w none = none
at_level w (some i) = some (i, w)

-- A finding from `i` on, or none.
abbrev From : ℕ → Option (ℕ × Text) → Type 0
From i none = Unit {0}
From i (some (p, w)) = i ≤ p

From-suc : (i : ℕ) (o : Option (ℕ × Text)) → From (suc i) o → From i o
From-suc i none h = tt
From-suc i (some (p, w)) h = omega arith

first_level-From :
    (line : Text) (levels : List (Text × ℕ)) (n i : ℕ) → From i (first_level line levels n i)
unfolding first_level
first_level-From line levels zero i = tt
first_level-From line levels (suc n) i = elim (Option-cases (level_at line i levels)) [
  | inl z ↦ rw (z, From) (From-suc i _ (first_level-From line levels n (suc i)))
  | inr (w, z) ↦ rw (z, From) (omega arith)
]

first_where-From : (w : Text) (p : ℕ → Bool) (n i : ℕ) → From i (at_level w (first_where p n i))
unfolding first_where
first_where-From w p zero i = tt
first_where-From w p (suc n) i = elim (Bool-cases (p i)) [
  | inl y ↦ rw (y, From) (omega arith)
  | inr y ↦ rw (y, From) (From-suc i _ (first_where-From w p n (suc i)))
]

earlier_left :
    (i : ℕ) (w : Text) (o : Option (ℕ × Text)) → From i o → earlier (some (i, w)) o ≡ some (i, w)
earlier_left i w none h = refl
earlier_left i w (some (p, v)) h = ground arith

earlier_right :
    (i : ℕ) (w : Text) (o : Option (ℕ × Text))
    → From (suc i) o
    → earlier o (some (i, w)) ≡ some (i, w)
earlier_right i w none h = refl
earlier_right i w (some (p, v)) h = ground arith

first_level-cons :
    (line w : Text) (color : ℕ) (levels : List (Text × ℕ)) (n i : ℕ)
    → first_level line ((w, color) ∷ levels) n i
      ≡ earlier (at_level w (first_where (at_word line w) n i)) (first_level line levels n i)
unfolding first_level level_at first_where
first_level-cons line w color levels zero i = refl
first_level-cons line w color levels (suc n) i =
    let ih = first_level-cons line w color levels n (suc i) in
    let f = first_level-From line levels n (suc i) in
    let g = first_where-From w (at_word line w) n (suc i) in
    elim (Bool-cases (at_word line w i)) [
      | inl y ↦
          rw (y, first_level) (sym (earlier_left i w _ (first_level-From line levels (suc n) i)))
      | inr y ↦ elim (Option-cases (level_at line i levels)) [
        | inl z ↦ rw (y, z, first_level) ih
        | inr (v, z) ↦ rw (y, z, first_level) (sym (earlier_right i v _ g))
      ]
    ]

-- Words of ASCII letters and digits, not empty.
abbrev IsWords : List (Text × ℕ) → Type 0
IsWords = All (λ row. (row.0 ≢ []) × Alnum row.0)

first_level-nil : (line : Text) (n i : ℕ) → first_level line [] n i ≡ none
unfolding first_level level_at
first_level-nil line zero i = refl
first_level-nil line (suc n) i = first_level-nil line n (suc i)

-- A round of `find_level`.
unfoldable better_of : Text → Option ℕ → Option (ℕ × Text) → Option (ℕ × Text)
better_of w none best = best
better_of w (some pos) best = if is_better pos best then some (pos, w) else best

better_of-earlier :
    (w : Text) (o : Option ℕ) (best : Option (ℕ × Text))
    → better_of w o best ≡ earlier best (at_level w o)
unfolding better_of
better_of-earlier w none none = refl
better_of-earlier w none (some b) = refl
better_of-earlier w (some pos) none = refl
better_of-earlier w (some pos) (some (p, v)) = ground arith

find_level_from-cons :
    (line w : Text) (color : ℕ) (levels : List (Text × ℕ)) (best : Option (ℕ × Text))
    → find_level_from line ((w, color) ∷ levels) best
      ≡ find_level_from line levels (better_of w (find_word line w) best)
unfolding find_level_from better_of
find_level_from-cons line w color levels best = elim (Option-cases (find_word line w)) [
  | inl z ↦ rw z refl
  | inr (pos, z) ↦ rw z refl
]

find_level_from-earlier :
    (line : Text) (levels : List (Text × ℕ)) (best : Option (ℕ × Text))
    → IsWords levels
    → find_level_from line levels best ≡ earlier best (first_level line levels (length line) 0)
find_level_from-earlier line [] none h =
    rw (first_level-nil line (length line) 0) (unfold find_level_from in refl)
find_level_from-earlier line [] (some b) h =
    rw (first_level-nil line (length line) 0) (unfold find_level_from in refl)
find_level_from-earlier line ((w, color) ∷ levels) best h =
    let found = at_level w (first_where (at_word line w) (length line) 0) in
    let e = better_of-earlier w (find_word line w) best in
    let f = find_word-first_where line w h.0.0 h.0.1 in
    let ih = find_level_from-earlier line levels (better_of w (find_word line w) best) h.1 in
    let k = earlier_assoc best found (first_level line levels (length line) 0) in
    let c = first_level-cons line w color levels (length line) 0 in
    cc (find_level_from-cons line w color levels best, e, f, ih, k, c)

level_colors-IsWords : IsWords level_colors
unfolding is_ascii_alphanumeric
level_colors-IsWords = ground arith

pub find_level-first_level :
    (line : Text) → find_level line ≡ first_level line level_colors (length line) 0
unfolding find_level
find_level-first_level line = find_level_from-earlier line level_colors none level_colors-IsWords
