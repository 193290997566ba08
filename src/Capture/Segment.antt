-- ===== src/Capture/Segment.antt =====
-- crates/wsrx/src/cli/capture.rs: `safe_segment`, `append_audit` and the relative path of a capture.
use lab_stream_gate.Common.{
  ◌↔◌, subst, ℕ, zero, suc, ◌≤◌, ◌≡◌, refl, ap, ◌≢◌, ◌⊎◌, Bool, true, ◌||◌, [], ◌∷◌, ◌++◌, arith,
  ◌==◌, if◌then◌else◌, length, take, retain, is_empty, All, All-take, All-retain, length-take,
  retain-eq_of_All,
}
use lab_stream_gate.Common.Text.{Text, codes, is_ascii_alphanumeric}

unfoldable pub is_segment_char : ℕ → Bool
unfolding is_ascii_alphanumeric
is_segment_char c = is_ascii_alphanumeric c || c == b'-' || c == b'_'

abbrev pub unknown : Text
unknown = codes "unknown"

unfoldable pub safe_segment : Text → Text
unfolding is_segment_char
safe_segment value =
    let kept = take 128 (retain is_segment_char value) in if is_empty kept then unknown else kept

-- `CaptureSession::start` names the file `captures/<instance>/<connection>.pcap`.
unfoldable pub relative_path : Text → Text → Text
unfolding safe_segment
relative_path instance_id connection_id =
    codes "captures/"
    ++ (safe_segment instance_id ++ (codes "/" ++ (connection_id ++ codes ".pcap")))

-- An ASCII letter or digit, a dash or an underscore.
abbrev pub IsSegmentChar : ℕ → Type 0
IsSegmentChar c =
    ((b'0' ≤ c) × (c ≤ b'9'))
    ⊎ ((b'A' ≤ c) × (c ≤ b'Z'))
    ⊎ ((b'a' ≤ c) × (c ≤ b'z'))
    ⊎ (c ≡ b'-')
    ⊎ (c ≡ b'_')

is_segment_char_iff : (c : ℕ) → (is_segment_char c ≡ true) ↔ IsSegmentChar c
unfolding is_segment_char is_ascii_alphanumeric
is_segment_char_iff c = (λ h. ground arith, λ h. ground arith)

All-IsSegmentChar : (s : Text) → All (λ c. is_segment_char c ≡ true) s → All IsSegmentChar s
All-IsSegmentChar [] h = tt
All-IsSegmentChar (c ∷ s) h = ((is_segment_char_iff c).0 h.0, All-IsSegmentChar s h.1)

All-is_segment_char : (s : Text) → All IsSegmentChar s → All (λ c. is_segment_char c ≡ true) s
All-is_segment_char [] h = tt
All-is_segment_char (c ∷ s) h = ((is_segment_char_iff c).1 h.0, All-is_segment_char s h.1)

-- A name of 1 to 128 characters, each an ASCII letter or digit, a dash or an underscore. As a
-- component of a path it has no separator and is neither `.` nor `..`.
pub record IsSegment (s : Text) : Type 0 where
  pub nonempty : s ≢ []
  short : length s ≤ 128
  pub plain : All IsSegmentChar s

IsSegment-kept : (s : Text) → (s ≢ []) → IsSegment s → safe_segment s ≡ s
unfolding safe_segment
IsSegment-kept s n v =
    rw (retain-eq_of_All is_segment_char s (All-is_segment_char s v.plain), whole 128 s v.short)
      (chosen s n)
  where
    whole : (n : ℕ) (xs : Text) → length xs ≤ n → take n xs ≡ xs
    whole zero [] h = refl
    whole zero (x ∷ xs) h = absurd (omega arith)
    whole (suc n) [] h = refl
    whole (suc n) (x ∷ xs) h = ap (◌∷◌ x) (whole n xs (omega arith))

    chosen : (xs : Text) → xs ≢ [] → (if is_empty xs then unknown else xs) ≡ xs
    chosen [] h = absurd (h refl)
    chosen (x ∷ xs) h = refl

-- Whatever the text, its safe segment has 1 to 128 characters, each an ASCII letter or digit, a dash
-- or an underscore; and exactly the texts of this form are kept as they are.
pub safe_segment-IsSegment :
    (s : Text) → IsSegment (safe_segment s) × ((safe_segment s ≡ s) ↔ IsSegment s)
unfolding safe_segment
safe_segment-IsSegment s = (made, (λ e. subst IsSegment e made, λ v. IsSegment-kept s v.nonempty v))
  where
    short : length (take 128 (retain is_segment_char s)) ≤ 128
    short = omega (arith, length-take 128 (retain is_segment_char s))

    plain : All (λ c. is_segment_char c ≡ true) (take 128 (retain is_segment_char s))
    plain = All-take _ 128 _ (All-retain is_segment_char s)

    segment :
        (kept : Text)
        → length kept ≤ 128
        → All (λ c. is_segment_char c ≡ true) kept
        → IsSegment (if is_empty kept then unknown else kept)
    segment [] l p = record {
      nonempty = λ e. cc;
      short = omega arith;
      plain = All-IsSegmentChar unknown (refl, (refl, (refl, (refl, (refl, (refl, (refl, tt)))))));
    }
    segment (c ∷ kept) l p = record {
      nonempty = λ e. cc;
      short = l;
      plain = All-IsSegmentChar (c ∷ kept) p;
    }

    made : IsSegment (safe_segment s)
    made = segment (take 128 (retain is_segment_char s)) short plain
