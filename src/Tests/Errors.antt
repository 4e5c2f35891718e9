-- ===== src/Tests/Errors.antt =====
-- Failures of src/shared/errors on concrete inputs.
use modular_hx_fastapi.Common.{Text, Value, [], codes, inl, inr, none, refl, some, ◌∷◌, ◌≡◌, ◌≢◌}
use modular_hx_fastapi.Errors.{
  Fields, Unknown, app_error, carrier, cause_of, details_of, failed, from_caught, internal, kind_of,
  lookup, merge, not_found, of_failure, plain, public_info, put, require_failure, trusted,
  with_cause, with_details, with_fields,
}
use modular_hx_fastapi.Errors.Projection.{
  IsUnclassified, app_error_lem, from_caught_lem, latest, override, public_info_conceals,
  rebuilt_keeps_public,
}

abbrev nothing : Unknown
nothing = plain Value.undefined

abbrev hidden : Unknown
hidden =
    failed internal "disk full" (some "db.disk") none ((codes "path", codes "/var/db") ∷ []) nothing

abbrev missing : Unknown
missing = failed not_found "no such user" (some "user.missing") none [] nothing

abbrev detail : Fields
detail = (codes "table", codes "users") ∷ []

abbrev detailed : Unknown
detailed = failed not_found "no such user" (some "user.missing") none detail nothing

did_detail : with_details missing detail ≡ some detailed
unfolding with_details require_failure merge put
did_detail = refl

abbrev caused : Unknown
caused = failed not_found "no such user" (some "user.missing") none [] hidden

did_cause : with_cause missing hidden ≡ some caused
unfolding with_cause require_failure
did_cause = refl

rebuilt_keeps_public_example :
    (public_info detailed ≡ public_info missing)
    × (cause_of detailed ≡ cause_of missing)
    × ((k : Text)
        → lookup k (details_of detailed)
          ≡ override (latest k detail) (lookup k (details_of missing)))
    × (public_info caused ≡ public_info missing)
    × (details_of caused ≡ details_of missing)
    × (cause_of caused ≡ hidden)
rebuilt_keeps_public_example =
    rebuilt_keeps_public missing detailed caused hidden detail did_detail did_cause

hidden-IsUnclassified : IsUnclassified hidden
unfolding kind_of trusted
hidden-IsUnclassified = inr refl

nothing-IsUnclassified : IsUnclassified nothing
unfolding kind_of trusted
nothing-IsUnclassified = inl refl

public_info_conceals_example : public_info hidden ≡ public_info nothing
public_info_conceals_example =
    public_info_conceals hidden nothing hidden-IsUnclassified nothing-IsUnclassified

from_caught_lem_example :
    (public_info (of_failure (from_caught nothing)) ≡ public_info nothing)
    × (kind_of (of_failure (from_caught nothing)) ≢ none)
    × (kind_of nothing ≡ none → cause_of (of_failure (from_caught nothing)) ≡ nothing)
    × (from_caught (of_failure (from_caught nothing)) ≡ from_caught nothing)
from_caught_lem_example = from_caught_lem nothing

abbrev carried : Unknown
carried = carrier not_found "no such user" (some "user.missing") none [] nothing

did_carry : app_error missing ≡ some carried
unfolding app_error require_failure
did_carry = refl

app_error_lem_example :
    (public_info carried ≡ public_info missing)
    × (kind_of carried ≡ kind_of missing)
    × (details_of carried ≡ details_of missing)
    × (cause_of carried ≡ cause_of missing)
    × (with_fields carried detail ≡ none)
    × (with_details carried detail ≡ none)
    × (with_cause carried hidden ≡ none)
app_error_lem_example = app_error_lem missing carried hidden detail did_carry
