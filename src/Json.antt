-- ===== src/Json.antt =====
-- JSON renderings of attributes in src/store.rs. An object is serde_json's map, which keeps its
-- keys sorted byte by byte; a later entry overwrites an earlier one of the same key.
pub mod Lookup
pub mod Queries
use otelview_postgres.Common.{
  ℕ, ◌+◌, ◌/◌, ◌%◌, ◌^◌, Bool, true, false, ◌||◌, ◌&&◌, Option, none, some, List, [], ◌∷◌, ite, ltb,
  ◌==◌, if◌then◌else◌, Str, text, Bytes-discrete,
}
use otelview_postgres.Common.Int.{ℤ}
use otelview_postgres.Hex.{hex}
use otelview_postgres.Otlp.{
  AnyValue, AnyValues, KeyValues, unset, string_value, string_value_strindex, bool_value, int_value,
  double_value, bytes_value, array_value, kvlist_value, nil, cons, end, pair, bare, Resource, Scope,
}

-- `serde_json::Value`
mutual
  pub data Json : Type 0 where
    null : Json
    bool : Bool → Json
    integer : ℤ → Json
    float : ℕ → Json
    string : Str → Json
    array : Items → Json
    object : Fields → Json

  pub data Items : Type 0 where
    no_items : Items
    item : Json → Items → Items

  pub data Fields : Type 0 where
    no_fields : Fields
    field : Str → Json → Fields → Fields

-- The order of `String`.
unfoldable pub str_lt : Str → Str → Bool
str_lt s [] = false
str_lt [] (d ∷ t) = true
str_lt (c ∷ s) (d ∷ t) = ltb c d || ((c == d) && str_lt s t)

unfoldable pub insert : Str → Json → Fields → Fields
insert k v no_fields = field k v no_fields
insert k v (field j w rest) =
    ite (Bytes-discrete k j) (field k v rest)
      (if str_lt k j then field k v (field j w rest) else field j w (insert k v rest))

unfoldable pub get_field : Str → Fields → Option Json
get_field k no_fields = none
get_field k (field j w rest) = ite (Bytes-discrete k j) (some w) (get_field k rest)

-- `value.get(key)` of an object, and of anything else
unfoldable pub get : Json → Str → Option Json
unfolding get_field
get (object fields) k = get_field k fields
get _ k = none

abbrev pub as_str : Option Json → Option Str
as_str (some (string s)) = some s
as_str _ = none

-- `json!` of a double: infinities and NaNs, whose exponent bits are all ones, become null.
unfoldable pub json_double : ℕ → Json
json_double bits = if bits / 2 ^ 52 % 2048 == 2047 then null else float bits

-- An entry is inserted into those of its left, so the fold runs from the left.
unfoldable mutual
  pub otel_value_to_json : AnyValue → Json
  otel_value_to_json (string_value v) = string v
  otel_value_to_json (string_value_strindex v) = integer v
  otel_value_to_json (bool_value v) = bool v
  otel_value_to_json (int_value v) = integer v
  otel_value_to_json (double_value v) = json_double v
  otel_value_to_json (bytes_value v) = string (hex v)
  otel_value_to_json (array_value vs) = array (otel_items vs)
  otel_value_to_json (kvlist_value kvs) = object (otel_fields kvs no_fields)
  otel_value_to_json unset = null

  pub otel_items : AnyValues → Items
  otel_items nil = no_items
  otel_items (cons v vs) = item (otel_value_to_json v) (otel_items vs)

  pub otel_fields : KeyValues → Fields → Fields
  otel_fields end acc = acc
  otel_fields (pair k v kvs) acc = otel_fields kvs (insert k (otel_value_to_json v) acc)
  otel_fields (bare k kvs) acc = otel_fields kvs (insert k null acc)

unfoldable pub attributes_to_json : KeyValues → Json
unfolding otel_value_to_json
attributes_to_json attributes = object (otel_fields attributes no_fields)

-- The attributes of a resource or a scope that may be missing.
abbrev pub resource_attributes : Option Resource → KeyValues
resource_attributes none = end
resource_attributes (some r) = r.attributes

abbrev pub scope_attributes : Option Scope → KeyValues
scope_attributes none = end
scope_attributes (some s) = s.attributes

abbrev or_unknown : Option Str → Str
or_unknown none = text "unknown_service"
or_unknown (some s) = s

-- The service that the rows of a resource are filed under.
unfoldable pub service_name : Json → Str
unfolding get
service_name resource_attrs = or_unknown (as_str (get resource_attrs (text "service.name")))
