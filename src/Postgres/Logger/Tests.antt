-- ===== src/Postgres/Logger/Tests.antt =====
-- The logger's fields at concrete inputs.
use iam_catalog_admin.Base.{String, none, List, [], ◌∷◌, ◌≡◌, ◌↔◌}
use iam_catalog_admin.Postgres.Logger.{field_of, last_value, fields_to_map, field_of-fields_to_map}

-- A slow query that is reported with a duration twice.
abbrev slow_query : List (String × String)
slow_query = ("duration", "9ms") ∷ ("sql", "SELECT 1") ∷ ("duration", "12ms") ∷ []

field_of-fields_to_map_example :
    ((key : String) → field_of key (fields_to_map slow_query) ≡ last_value key slow_query)
    × ((fields_to_map slow_query ≡ none) ↔ (slow_query ≡ []))
field_of-fields_to_map_example = field_of-fields_to_map slow_query
