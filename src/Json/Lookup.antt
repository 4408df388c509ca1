-- ===== src/Json/Lookup.antt =====
-- What a key of an attribute list shows in the JSON object: its last value.
use otelview_postgres.Common.{◌≡◌, refl, ◌∙◌, Option, none, some, ite, Str, Bytes-discrete, arith}
use otelview_postgres.Otlp.{KeyValues, end, pair, bare}
use otelview_postgres.Json.{
  Json, Fields, null, no_fields, field, insert, get_field, get, otel_value_to_json, otel_fields,
  attributes_to_json,
}

get_field-insert :
    (k j : Str) (v : Json) (m : Fields)
    → get_field j (insert k v m) ≡ ite (Bytes-discrete j k) (some v) (get_field j m)
unfolding get_field insert
get_field-insert k j v no_fields = refl
get_field-insert k j v (field i w rest) = ground (arith, get_field-insert k j v rest)

-- The last value that an attribute list gives a key, `before` if it gives none.
unfoldable pub last_value : Str → KeyValues → Option Json → Option Json
last_value k end before = before
last_value k (pair j v kvs) before =
    last_value k kvs (ite (Bytes-discrete k j) (some (otel_value_to_json v)) before)
last_value k (bare j kvs) before = last_value k kvs (ite (Bytes-discrete k j) (some null) before)

get_field-otel_fields :
    (k : Str) (kvs : KeyValues) (acc : Fields)
    → get_field k (otel_fields kvs acc) ≡ last_value k kvs (get_field k acc)
unfolding last_value otel_fields
get_field-otel_fields k end acc = refl
get_field-otel_fields k (pair j v kvs) acc =
    get_field-otel_fields k kvs (insert j (otel_value_to_json v) acc)
    ∙ rw (get_field-insert j k (otel_value_to_json v) acc)
get_field-otel_fields k (bare j kvs) acc =
    get_field-otel_fields k kvs (insert j null acc) ∙ rw (get_field-insert j k null acc)

-- The object of an attribute list shows under each key the last value that the list gives it.
pub get-attributes_to_json :
    (k : Str) (kvs : KeyValues) → get (attributes_to_json kvs) k ≡ last_value k kvs none
unfolding get attributes_to_json
get-attributes_to_json k kvs = get_field-otel_fields k kvs no_fields ∙ unfold get_field in refl
