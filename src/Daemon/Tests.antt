-- ===== src/Daemon/Tests.antt =====
-- The theorems of the local daemon at concrete inputs.
use lab_stream_gate.Common.{
  ◌≡◌, refl, ◌↔◌, true, false, some, [], ◌∷◌, ◌++◌, if◌then◌else◌, ok, err,
}
use lab_stream_gate.Common.Text.{Text, codes}
use lab_stream_gate.Http.{accepted, created, forbidden}
use lab_stream_gate.Daemon.{
  Origins, contains_text, add_allowed_origin, remove_allowed_origin, add_pending_origin,
  get_cors_status, allow_origin,
}
use lab_stream_gate.Daemon.Permission.{
  IsApart, Reach, here, next, asks, allows, no_origins, Reach-IsApart, get_cors_status_after,
  allow_origin_iff,
}

abbrev page : Text
page = codes "https://a.example"

-- The page has asked to control the daemon, and then is allowed to.
abbrev asked : Origins
asked = record {
  allowed = [];
  pending = page ∷ [];
  allowed_poisoned = false;
  pending_poisoned = false;
}

abbrev asked_allowed : Origins
asked_allowed = (add_allowed_origin page (add_pending_origin page no_origins).0).0

Reach-asked_allowed : Reach no_origins asked_allowed
Reach-asked_allowed =
    next (next here (asks page no_origins)) (allows page (add_pending_origin page no_origins).0)

Reach-IsApart_example : IsApart asked_allowed
Reach-IsApart_example = Reach-IsApart asked_allowed Reach-asked_allowed

get_cors_status_after_example :
    (get_cors_status (some page) (add_allowed_origin page asked).0 ≡ ok accepted)
    × (get_cors_status (some page) (remove_allowed_origin page asked).0 ≡ err forbidden)
    × (get_cors_status (some page) (add_pending_origin page asked).0
        ≡ (if contains_text asked.allowed page then ok accepted else err created))
get_cors_status_after_example = get_cors_status_after page asked refl refl

allow_origin_iff_example : (allow_origin (codes "a.example" ∷ []) page ≡ true) ↔ (
    (o : Text) × (start : Text) × (contains_text (codes "a.example" ∷ []) o ≡ true)
    × (page ≡ start ++ o))
allow_origin_iff_example = allow_origin_iff (codes "a.example" ∷ []) page
