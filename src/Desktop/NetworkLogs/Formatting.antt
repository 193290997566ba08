-- ===== src/Desktop/NetworkLogs/Formatting.antt =====
-- crates/desktop/src/ui/network_logs.rs: the spans of a line are the parts it was formatted of.
use lab_stream_gate.Common.{
  ℕ, zero, suc, ◌+◌, ◌-◌, ◌≡◌, ◌≢◌, refl, sym, ap, ◌∙◌, inl, inr, true, not, ◌&&◌, Option, none,
  some, [], ◌∷◌, ◌++◌, append_assoc, leb, ltb, if◌then◌else◌, length, take, drop, is_empty, retain,
  ok, arith, Bool-cases, Option-cases, All-append, is_some, length-append, take-append,
}
use lab_stream_gate.Common.Text.{Text, codes}
use lab_stream_gate.Common.Parse.{strip_prefix}
use lab_stream_gate.Desktop.{LogEntry}
use lab_stream_gate.Desktop.NetworkLogs.{
  find_text, get, find_level, level_color, slice_at, trim_end, LineSpans, slice_from, module_range,
  spans_for_line,
}
use lab_stream_gate.Desktop.NetworkLogs.Words.{length-ne_nil}
use lab_stream_gate.Desktop.NetworkLogs.Editor.{spaces, pad_level, format_log}
use lab_stream_gate.Desktop.NetworkLogs.Lines.{
  IsStamp, is_head_byte, IsHead, drop_to, get_to, line_of, drop_to_level, find_level-line_of,
}
use lab_stream_gate.Desktop.NetworkLogs.Trimming.{spaces-snoc, spaces_last, trim_end-spaces}

-- The bytes of a range.
abbrev pub slice : ℕ × ℕ → Text → Text
slice (first, last) s = take (last - first) (drop first s)

find_text-append :
    (target rest : Text)
    → find_text (codes ": ") target ≡ none
    → find_text (codes ": ") (target ++ codes ": " ++ rest) ≡ some (length target)
unfolding find_text strip_prefix
find_text-append [] rest h = refl
find_text-append (c ∷ []) rest h = ground arith
find_text-append (c ∷ d ∷ target) rest h =
    ground (
      arith,
      find_text-append (d ∷ target) rest,
      Option-cases (find_text (codes ": ") (d ∷ target)),
    )

-- The line by its head, its level and its rest.
rest_of : LogEntry → Text
rest_of log = (if is_empty log.target then [] else log.target ++ codes ": ") ++ log.message

head_of : LogEntry → Text
head_of log =
    log.timestamp
    ++ spaces (suc (5 - length (retain (λ c. not (leb 0x80 c && ltb c 0xc0)) log.level)))

format_log-line_of :
    (log : LogEntry) → format_log log ≡ line_of (head_of log) log.level (rest_of log)
unfolding format_log pad_level rest_of head_of
format_log-line_of log =
    let n : ℕ = 5 - length (retain (λ c. not (leb 0x80 c && ltb c 0xc0)) log.level) in
    let r : Text = b' ' ∷ rest_of log in
    ap (λ x. log.timestamp ++ b' ' ∷ b' ' ∷ x) (append_assoc (spaces n) log.level r)
    ∙ ap (λ x. log.timestamp ++ x) (spaces-snoc (suc n) (log.level ++ r))
    ∙ sym (append_assoc log.timestamp (spaces (suc n)) (b' ' ∷ (log.level ++ r)))

spaces-IsHead : (n : ℕ) → IsHead (spaces n)
spaces-IsHead zero = tt
spaces-IsHead (suc n) = (refl, spaces-IsHead n)

stamp-IsHead : (s : Text) → IsStamp s → IsHead s
stamp-IsHead [] h = tt
stamp-IsHead (c ∷ s) h = (ground arith, stamp-IsHead s h.1)

head_of-IsHead : (log : LogEntry) → IsStamp log.timestamp → IsHead (head_of log)
unfolding head_of
head_of-IsHead log h =
    All-append (λ c. is_head_byte c ≡ true) log.timestamp _ (stamp-IsHead log.timestamp h)
      (spaces-IsHead (suc (5 - length (retain (λ c. not (leb 0x80 c && ltb c 0xc0)) log.level))))

module _ (head level rest : Text) where
  abbrev module_start : ℕ
  module_start = suc (length head) + length level + 1

  start_eq : length head + suc (length level + 1) ≡ module_start
  start_eq = omega arith

  drop_to_rest : drop module_start (line_of head level rest) ≡ rest
  drop_to_rest =
      let e =
        rw start_eq at (drop_to head (b' ' ∷ (level ++ b' ' ∷ rest)) (suc (length level + 1))) in
      cc (e, drop_to level (b' ' ∷ rest) 1)

  get_to_rest : get module_start (line_of head level rest) ≡ get 0 rest
  unfolding get
  get_to_rest =
      let e =
        rw start_eq at (get_to head (b' ' ∷ (level ++ b' ' ∷ rest)) (suc (length level + 1))) in
      cc (e, get_to level (b' ' ∷ rest) 1)

  line_length : length (line_of head level rest) ≡ module_start + length rest
  line_length =
      let a = length-append head (b' ' ∷ (level ++ b' ' ∷ rest)) in
      let b = length-append level (b' ' ∷ rest) in omega (arith, a, b)

  slice_from-line_of : slice_from module_start (line_of head level rest) ≡ slice_from 0 rest
  unfolding slice_from
  slice_from-line_of = cc (get_to_rest, drop_to_rest)

  module_range-line_of :
      (n : ℕ)
      → rest ≢ []
      → slice_from 0 rest ≡ ok rest
      → find_text (codes ": ") rest ≡ some n
      → module_range (line_of head level rest) module_start
        ≡ ok (some (module_start, module_start + n + 1))
  unfolding module_range
  module_range-line_of n e b f =
      let within : ltb module_start (length (line_of head level rest)) ≡ true =
        ground (arith, line_length, length-ne_nil rest e) in
      rw (within, slice_from-line_of, b, f, module_range) refl

spans_for_line_of :
    (line level : Text) (offset : ℕ) (m : Option (ℕ × ℕ))
    → find_level line ≡ some (offset, level)
    → module_range line (offset + length level + 1) ≡ ok m
    → spans_for_line line
      ≡ ok (
          some (record {
            timestamp = (0, length (trim_end (take offset line)));
            level = (offset, offset + length level);
            mod_range = m;
          }))
unfolding spans_for_line
spans_for_line_of line level offset m e f = rw (e, f, spans_for_line) refl

take_head :
    (s level rest : Text) (n : ℕ)
    → take (suc (length (s ++ spaces n))) (line_of (s ++ spaces n) level rest) ≡ s ++ spaces (suc n)
take_head s level rest n =
    let p = s ++ spaces n in
    let r = level ++ b' ' ∷ rest in
    let e : length (p ++ b' ' ∷ []) ≡ suc (length p) = omega (arith, length-append p (b' ' ∷ [])) in
    let f = append_assoc p (b' ' ∷ []) r in
    cc (e, f, take-append (p ++ b' ' ∷ []) r, spaces_last s n)

slice_timestamp :
    (s level rest : Text) (n : ℕ) → slice (0, length s) (line_of (s ++ spaces n) level rest) ≡ s
slice_timestamp s level rest n =
    let x = b' ' ∷ (level ++ b' ' ∷ rest) in
    let e : length s - 0 ≡ length s = omega arith in
    rw (e, append_assoc s (spaces n) x) (take-append s (spaces n ++ x))

slice_level :
    (head level rest : Text)
    → slice (suc (length head), suc (length head) + length level) (line_of head level rest) ≡ level
slice_level head level rest =
    let e : suc (length head) + length level - suc (length head) ≡ length level = omega arith in
    rw (e, drop_to_level head level rest) (take-append level (b' ' ∷ rest))

-- What follows the level: the target, a colon, a space and the message.
abbrev rest_with : Text → Text → Text
rest_with target message = target ++ codes ": " ++ message

slice_module :
    (head level target message : Text)
    → slice
        (module_start head level target, module_start head level target + length target + 1)
        (line_of head level (rest_with target message))
      ≡ target ++ codes ":"
slice_module head level target message =
    let m = module_start head level target in
    let e : m + length target + 1 - m ≡ length (target ++ codes ":") =
      omega (arith, length-append target (codes ":")) in
    let f : rest_with target message ≡ target ++ codes ":" ++ b' ' ∷ message = cc (
      append_assoc target (codes ": ") message,
      append_assoc target (codes ":") (b' ' ∷ message),
    ) in
    rw (e, drop_to_rest head level (rest_with target message), f)
      (take-append (target ++ codes ":") (b' ' ∷ message))

slice_from-rest_with :
    (target message : Text)
    → target ≢ []
    → slice_from 0 target ≡ ok target
    → slice_from 0 (rest_with target message) ≡ ok (rest_with target message)
unfolding slice_from slice_at get
slice_from-rest_with [] message t b = absurd (t refl)
slice_from-rest_with (c ∷ target) message t b = ground arith

rest_with-ne_nil : (target message : Text) → target ≢ [] → rest_with target message ≢ []
rest_with-ne_nil [] message t = absurd (t refl)
rest_with-ne_nil (c ∷ target) message t = λ e. cc

rest_of-rest_with :
    (log : LogEntry) → log.target ≢ [] → rest_of log ≡ rest_with log.target log.message
unfolding rest_of
rest_of-rest_with log t = elim (Bool-cases (is_empty log.target)) [
  | inl y ↦ absurd (t (is_empty-eq_true log.target y))
  | inr y ↦ rw y refl
]
  where
    is_empty-eq_true : (s : Text) → is_empty s ≡ true → s ≡ []
    is_empty-eq_true [] e = refl
    is_empty-eq_true (c ∷ s) e = absurd (cc)

trim_end-take_head :
    (s level rest : Text) (n : ℕ)
    → IsStamp s
    → trim_end (take (suc (length (s ++ spaces n))) (line_of (s ++ spaces n) level rest)) ≡ s
trim_end-take_head s level rest n h = cc (take_head s level rest n, trim_end-spaces s (suc n) h)

-- A line that is formatted of a timestamp in digits and the signs of RFC 3339, one of the five
-- levels, a target that is not empty, starts a character and has no colon before a space, and any
-- message, is taken apart again: there is no panic, and the three ranges found hold the timestamp,
-- the level, and the target with its colon.
pub spans_for_line-format_log :
    (log : LogEntry)
    → IsStamp log.timestamp
    → is_some (level_color log.level) ≡ true
    → log.target ≢ []
    → slice_from 0 log.target ≡ ok log.target
    → find_text (codes ": ") log.target ≡ none
    → (spans : LineSpans) × (m : ℕ × ℕ) × (spans_for_line (format_log log) ≡ ok (some spans))
      × (spans.mod_range ≡ some m)
      × (slice spans.timestamp (format_log log) ≡ log.timestamp)
      × (slice spans.level (format_log log) ≡ log.level)
      × (slice m (format_log log) ≡ log.target ++ codes ":")
spans_for_line-format_log log h l t b f =
    let n = suc (5 - length (retain (λ c. not (leb 0x80 c && ltb c 0xc0)) log.level)) in
    let head = log.timestamp ++ spaces n in
    let rest = rest_with log.target log.message in
    let line = line_of head log.level rest in
    let start : ℕ = suc (length head) in
    let m : ℕ = module_start head log.level rest in
    let e : format_log log ≡ line =
      unfold head_of in
      format_log-line_of log ∙ ap (line_of head log.level) (rest_of-rest_with log t) in
    let ts : trim_end (take start line) ≡ log.timestamp =
      trim_end-take_head log.timestamp log.level rest n h in
    let found = find_level-line_of head log.level rest (unfold head_of in head_of-IsHead log h) l in
    let range =
      module_range-line_of head log.level rest (length log.target)
        (rest_with-ne_nil log.target log.message t)
        (slice_from-rest_with log.target log.message t b)
        (find_text-append log.target log.message f) in
    let spans = spans_for_line_of line log.level start _ found range in
    rw (e) (
      record {
        timestamp = (0, length (trim_end (take start line)));
        level = (start, start + length log.level);
        mod_range = some (m, m + length log.target + 1);
      },
      (m, m + length log.target + 1),
      spans,
      refl,
      rw ts (slice_timestamp log.timestamp log.level rest n),
      slice_level head log.level rest,
      slice_module head log.level log.target log.message,
    )
