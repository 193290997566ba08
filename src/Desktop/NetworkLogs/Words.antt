-- ===== src/Desktop/NetworkLogs/Words.antt =====
-- crates/desktop/src/ui/network_logs.rs: `find_word` finds the first occurrence between word
-- boundaries, and `find_level` the first level.
use lab_stream_gate.Common.{
  ℕ, zero, suc, ◌+◌, ◌-◌, ◌≤◌, ◌<◌, ◌≡◌, ◌≢◌, refl, sym, inl, inr, Bool, true, false, ◌&&◌, Option,
  none, some, [], ◌∷◌, ◌++◌, if◌then◌else◌, length, drop, arith, Bool-cases, Option-cases, All,
  length-append, length-drop, drop-drop,
}
use lab_stream_gate.Common.Text.{Text, is_ascii_alphanumeric, ℕ_discrete}
use lab_stream_gate.Common.Parse.{starts_with, strip_prefix, strip_prefix-eq_some}
use lab_stream_gate.Desktop.NetworkLogs.{
  find_text, get, is_other, before_ok, after_ok, find_word_from, find_word,
}

get-drop : (n k : ℕ) (s : Text) → get k (drop n s) ≡ get (n + k) s
unfolding get
get-drop zero k s = ground arith
get-drop (suc n) k [] = ground arith
get-drop (suc n) k (c ∷ s) = let e : suc n + k ≡ suc (n + k) = omega arith in rw e (get-drop n k s)

find_text-eq_none :
    (w s : Text) (j : ℕ) → find_text w s ≡ none → w ≢ [] → starts_with w (drop j s) ≡ false
unfolding find_text strip_prefix
find_text-eq_none w [] zero h n = ground arith
find_text-eq_none w [] (suc j) h n = ground arith
find_text-eq_none w (c ∷ s) zero h n = ground arith
find_text-eq_none w (c ∷ s) (suc j) h n =
    ground (arith, find_text-eq_none w s j, Option-cases (find_text w s))

pub find_text-eq_some :
    (w s : Text) (r : ℕ) → find_text w s ≡ some r → starts_with w (drop r s) ≡ true
unfolding find_text
find_text-eq_some w [] r h = ground arith
find_text-eq_some w (c ∷ s) zero h = ground (arith, Option-cases (find_text w s))
find_text-eq_some w (c ∷ s) (suc r) h =
    ground (arith, find_text-eq_some w s r, Option-cases (find_text w s))

find_text-first :
    (w s : Text) (r j : ℕ) → find_text w s ≡ some r → j < r → starts_with w (drop j s) ≡ false
unfolding find_text
find_text-first w [] r j h l = ground arith
find_text-first w (c ∷ s) zero j h l = absurd (omega arith)
find_text-first w (c ∷ s) (suc r) zero h l = ground (arith, Option-cases (find_text w s))
find_text-first w (c ∷ s) (suc r) (suc j) h l =
    ground (arith, find_text-first w s r j, Option-cases (find_text w s))

-- The word stands at an offset, between boundaries.
unfoldable pub at_word : Text → Text → ℕ → Bool
unfolding get is_ascii_alphanumeric
at_word line word i =
    starts_with word (drop i line) && (before_ok line i && after_ok line (i + length word))

-- The first of `n` numbers from `i` that passes a test.
unfoldable pub first_where : (ℕ → Bool) → ℕ → ℕ → Option ℕ
first_where p zero i = none
first_where p (suc n) i = let rest = first_where p n (suc i) in if p i then some i else rest

first_where-skip :
    (p : ℕ → Bool) (k n i : ℕ)
    → ((j : ℕ) → i ≤ j → j < i + k → p j ≡ false)
    → first_where p (k + n) i ≡ first_where p n (i + k)
unfolding first_where
first_where-skip p zero n i h = ground arith
first_where-skip p (suc k) n i h =
    let here : p i ≡ false = h i (omega arith) (omega arith) in
    let rest = first_where-skip p k n (suc i) (λ j a b. h j (omega arith) (omega arith)) in
    let e : suc k + n ≡ suc (k + n) = omega arith in
    let f : i + suc k ≡ suc i + k = omega arith in rw (e, here, f) rest

starts_with-split : (w s : Text) → starts_with w s ≡ true → (r : Text) × (s ≡ w ++ r)
starts_with-split w s h = elim (Option-cases (strip_prefix w s)) [
  | inl n ↦ absurd (ground arith)
  | inr (r, e) ↦ (r, strip_prefix-eq_some w s r e)
]

get-append : (w r : Text) (k : ℕ) → k < length w → get k (w ++ r) ≡ get k w
unfolding get
get-append [] r k h = absurd (omega arith)
get-append (c ∷ w) r zero h = refl
get-append (c ∷ w) r (suc k) h = get-append w r k (omega arith)

abbrev pub Alnum : Text → Type 0
Alnum = All (λ c. is_ascii_alphanumeric c ≡ true)

get-Alnum : (w : Text) (k : ℕ) → Alnum w → k < length w → is_other (get k w) ≡ false
unfolding get
get-Alnum [] k a h = absurd (omega arith)
get-Alnum (c ∷ w) zero a h = ground (arith, a.0)
get-Alnum (c ∷ w) (suc k) a h = get-Alnum w k a.1 (omega arith)

-- An offset inside an occurrence is not at a boundary.
at_word_inside :
    (line word : Text) (start j : ℕ)
    → Alnum word
    → starts_with word (drop start line) ≡ true
    → start < j
    → j < start + length word
    → at_word line word j ≡ false
unfolding at_word
at_word_inside line word start j a h l m =
    let (r, e) = starts_with-split word (drop start line) h in
    let k : ℕ = j - 1 - start in
    let f : start + k ≡ j - 1 = omega arith in
    let g = get-drop start k line in
    let i = get-append word r k (omega arith) in
    let o = get-Alnum word k a (omega arith) in
    let b : is_other (get (j - 1) line) ≡ false = cc (f, g, i, o, e) in ground arith

pub length-ne_nil : (w : Text) → w ≢ [] → 0 < length w
length-ne_nil [] e = absurd (e refl)
length-ne_nil (c ∷ w) e = omega arith

-- An occurrence lies within the text.
pub starts_with-le :
    (w s : Text) (n : ℕ) → starts_with w (drop n s) ≡ true → w ≢ [] → n + length w ≤ length s
starts_with-le w s n h e =
    let (r, f) = starts_with-split w (drop n s) h in
    let g : length (drop n s) ≡ length w + length r = rw f (length-append w r) in
    omega (arith, length-drop n s, length-ne_nil w e, g)

pub not_at_word :
    (line word : Text) (j : ℕ)
    → starts_with word (drop j line) ≡ false
    → at_word line word j ≡ false
unfolding at_word
not_at_word line word j h = ground arith

first_where-none :
    (p : ℕ → Bool) (n i : ℕ)
    → ((j : ℕ) → i ≤ j → j < i + n → p j ≡ false)
    → first_where p n i ≡ none
unfolding first_where
first_where-none p n i h = let e : n + 0 ≡ n = omega arith in rw e at (first_where-skip p n 0 i h)

first_where-some : (p : ℕ → Bool) (n i : ℕ) → 0 < n → p i ≡ true → first_where p n i ≡ some i
unfolding first_where
first_where-some p zero i l h = absurd (omega arith)
first_where-some p (suc n) i l h = rw h refl

-- Before the first occurrence there is no word.
before_find :
    (line word : Text) (search rel j : ℕ)
    → find_text word (drop search line) ≡ some rel
    → search ≤ j
    → j < search + rel
    → at_word line word j ≡ false
before_find line word search rel j f a b =
    let e : search + (j - search) ≡ j = omega arith in
    let g = find_text-first word (drop search line) rel (j - search) f (omega arith) in
    not_at_word line word j (rw (drop-drop search (j - search) line, e) at g)

no_find :
    (line word : Text) (search j : ℕ)
    → find_text word (drop search line) ≡ none
    → word ≢ []
    → search ≤ j
    → at_word line word j ≡ false
no_find line word search j f n a =
    let e : search + (j - search) ≡ j = omega arith in
    let g = find_text-eq_none word (drop search line) (j - search) f n in
    not_at_word line word j (rw (drop-drop search (j - search) line, e) at g)

-- At an occurrence without boundaries and inside it there is no word.
through_find :
    (line word : Text) (start j : ℕ)
    → Alnum word
    → starts_with word (drop start line) ≡ true
    → (before_ok line start && after_ok line (start + length word)) ≡ false
    → start ≤ j
    → j < start + length word
    → at_word line word j ≡ false
unfolding at_word
through_find line word start j a h b l m = elim (ℕ_discrete start j) [
  | yes e ↦ ground arith
  | no n ↦ at_word_inside line word start j a h (omega arith) m
]

-- A round of the loop that finds the word at `start`, with what the rounds after it give.
found_at :
    (line word : Text) (start : ℕ) (after : Option ℕ)
    → word ≢ []
    → Alnum word
    → starts_with word (drop start line) ≡ true
    → start + length word ≤ length line
    → after
      ≡ first_where (at_word line word) (length line - (start + length word)) (start + length word)
    → (if before_ok line start && after_ok line (start + length word) then some start else after)
      ≡ first_where (at_word line word) (length line - start) start
unfolding at_word
found_at line word start after e a b w ih =
    let nonempty = length-ne_nil word e in
    elim (Bool-cases (before_ok line start && after_ok line (start + length word))) [
      | inl y ↦
          let p : at_word line word start ≡ true = ground arith in
          rw y
            (sym (first_where-some (at_word line word) (length line - start) start (omega arith) p))
      | inr y ↦
          let m : ℕ = length line - (start + length word) in
          let k : length word + m ≡ length line - start = omega arith in
          let skipped = rw k at (
            first_where-skip (at_word line word) (length word) m start
              (λ j p q. through_find line word start j a b y p q)) in
          rw (y, skipped) ih
    ]

-- What the loop gives, from the offset `search` on.
find_word_from-first_where :
    (n : ℕ) (line word : Text) (search : ℕ)
    → word ≢ []
    → Alnum word
    → length line - search < n
    → search ≤ length line
    → find_word_from n line word search
      ≡ first_where (at_word line word) (length line - search) search
unfolding find_word_from
find_word_from-first_where zero line word search e a h l = absurd (omega arith)
find_word_from-first_where (suc n) line word search e a h l =
    elim (Option-cases (find_text word (drop search line))) [
      | inl z ↦
          rw (z, find_word_from)
            (sym (
              first_where-none (at_word line word) _ _ (λ j p q. no_find line word search j z e p)))
      | inr (rel, f) ↦
          let here =
            rw (drop-drop search rel line) at (find_text-eq_some word (drop search line) rel f) in
          let within = starts_with-le word line (search + rel) here e in
          let nonempty = length-ne_nil word e in
          let m : ℕ = length line - (search + rel) in
          let k : rel + m ≡ length line - search = omega arith in
          let skipped = rw k at (
            first_where-skip (at_word line word) rel m search
              (λ j p q. before_find line word search rel j f p q)) in
          let ih =
            find_word_from-first_where n line word (search + rel + length word) e a (omega arith)
              (omega arith) in
          rw (f, skipped, find_word_from) (found_at line word (search + rel) _ e a here within ih)
    ]

-- For a word of ASCII letters and digits, not empty, `find_word` is the first offset at which the
-- word stands between boundaries, of all the offsets in the line; none when there is none. Its loop
-- ends.
pub find_word-first_where :
    (line word : Text)
    → word ≢ []
    → Alnum word
    → find_word line word ≡ first_where (at_word line word) (length line) 0
unfolding find_word
find_word-first_where line word e a =
    let k : length line - 0 ≡ length line = omega arith in
    rw k at
      (find_word_from-first_where (suc (length line)) line word 0 e a (omega arith) (omega arith))
