-- ===== src/Desktop/Models.antt =====
-- crates/desktop/src/models.rs: the texts of `FeatureFlags`, and `normalize_language`; and
-- `set_locale` of crates/desktop/src/i18n.rs.
use lab_stream_gate.Common.{
  ℕ, ◌≡◌, refl, Bool, true, false, ◌||◌, Option, none, some, List, [], ◌∷◌, ◌++◌, ◌==◌, arith,
  if◌then◌else◌,
}
use lab_stream_gate.Common.Text.{Text, codes, same, Text-discrete, ℕ_discrete}
use lab_stream_gate.Common.Parse.{split_first}
use lab_stream_gate.Daemon.{contains_text}
use lab_stream_gate.Desktop.{FeatureFlags}

abbrev pub basic_text : Text
basic_text = codes "basic"

abbrev pub pingfall_text : Text
pingfall_text = codes "pingfall"

-- The loop over `FEATURE_MAP`, which has two rows.
unfoldable pub as_feature_vec : FeatureFlags → List Text
as_feature_vec f =
    (if f.basic then basic_text ∷ [] else []) ++ (if f.ping_fall then pingfall_text ∷ [] else [])

unfoldable pub insert_flag : Text → FeatureFlags → FeatureFlags
insert_flag t f = record {
  basic = f.basic || same t basic_text;
  ping_fall = f.ping_fall || same t pingfall_text;
}

-- `From<T>`, from the flags found so far; texts that are not in the map are ignored.
unfoldable pub flags_of : List Text → FeatureFlags → FeatureFlags
unfolding insert_flag
flags_of [] f = f
flags_of (t ∷ ts) f = flags_of ts (insert_flag t f)

abbrev pub no_flags : FeatureFlags
no_flags = record { basic = false; ping_fall = false }

flags_of-contains :
    (ts : List Text) (f : FeatureFlags)
    → ((flags_of ts f).basic ≡ (f.basic || contains_text ts basic_text))
      × ((flags_of ts f).ping_fall ≡ (f.ping_fall || contains_text ts pingfall_text))
unfolding flags_of insert_flag contains_text
flags_of-contains [] f = (ground arith, ground arith)
flags_of-contains (t ∷ ts) f =
    let (b, p) = flags_of-contains ts (insert_flag t f) in (ground arith, ground arith)

-- Flags that are read from a list of texts are those whose texts are in it; and flags that are
-- written read back as the same flags.
flags_of-as_feature_vec :
    (ts : List Text) (f : FeatureFlags)
    → ((flags_of ts no_flags).basic ≡ contains_text ts basic_text)
      × ((flags_of ts no_flags).ping_fall ≡ contains_text ts pingfall_text)
      × (flags_of (as_feature_vec f) no_flags ≡ f)
unfolding flags_of insert_flag as_feature_vec Text-discrete ℕ_discrete
flags_of-as_feature_vec ts f =
    let (b, p) = flags_of-contains ts no_flags in
    (ground arith, ground arith, whole f.basic f.ping_fall)
  where
    whole :
        (b p : Bool)
        → flags_of (as_feature_vec (record { basic = b; ping_fall = p })) no_flags
          ≡ record { basic = b; ping_fall = p }
    whole false false = refl
    whole false true = refl
    whole true false = refl
    whole true true = refl

-- What follows the first `c`, if there is one.
unfoldable pub after_first : ℕ → Text → Option Text
after_first c [] = none
after_first c (x ∷ xs) = if x == c then some xs else after_first c xs

-- The second part of `split('-')`.
unfoldable pub region_part : Text → Option Text
unfolding after_first split_first
region_part locale = elim (after_first b'-' locale) [
  | none ↦ none
  | some rest ↦ some (split_first b'-' rest)
]

unfoldable pub region_of : Text → Text
region_of s =
    if same s (codes "CN")
    then codes "CN"
    else if same s (codes "TW") || same s (codes "HK")
    then codes "TW"
    else if same s (codes "Hans")
    then codes "CN"
    else if same s (codes "Hant")
    then codes "TW"
    else codes "US"

abbrev pub region_or : Option Text → Text → Text
region_or none other = other
region_or (some s) other = region_of s

unfoldable pub normalize_language : Text → Text
unfolding region_part region_of split_first
normalize_language locale =
    let lang = split_first b'-' locale in
    let region = region_part locale in
    if same lang (codes "en")
    then codes "en_" ++ region_or region (codes "US")
    else if same lang (codes "zh")
    then codes "zh_" ++ region_or region (codes "CN")
    else codes "en_US"

-- The locale that `set_locale` stores.
unfoldable pub set_locale : Text → Text
set_locale locale =
    if same locale (codes "zh_CN") || same locale (codes "zh-hans") || same locale (codes "zh-CN")
    then codes "zh_CN"
    else if same locale (codes "zh_TW")
        || same locale (codes "zh-hant")
        || same locale (codes "zh-TW")
    then codes "zh_TW"
    else codes "en_US"
