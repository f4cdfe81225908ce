-- ===== src/Tests/Requests.antt =====
-- A query whose parameter is blank, for internal/limiter/request.go.
use forwardlimit.Common.{refl, List, [], ◌∷◌, All}
use forwardlimit.Common.Text.{
  Text, codes, equal_fold, to_lower, lower_byte, text_eq, trim_space, trim_left, trim_right,
  is_space,
}
use forwardlimit.Common.Assoc.{lookup}
use forwardlimit.Request.{Request, query_value, scan_exact, scan_entries, scan_folded, values_get}
use forwardlimit.Request.Query.{IsBlankFor, query_value-none}
use forwardlimit.Tests.{post_login}

abbrev blank_tenant : Text → List (Text × List Text)
blank_tenant q = (codes "Tenant", codes " " ∷ []) ∷ []

abbrev with_query : Request
with_query = record post_login { raw_query = codes "Tenant=+" }

query_value-none_example :
    All (λ n. All (IsBlankFor n) (blank_tenant with_query.raw_query)) (codes "tenant" ∷ [])
unfolding query_value scan_exact scan_folded scan_entries values_get lookup equal_fold to_lower
    lower_byte text_eq trim_space trim_left trim_right is_space
query_value-none_example = query_value-none blank_tenant with_query (codes "tenant" ∷ []) refl refl
