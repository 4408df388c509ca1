-- ===== src/Json/Queries.antt =====
-- Attribute values of a trace query (`jaeger.storage.v2.AnyValue`), and `query_value_to_json`.
use otelview_postgres.Common.{ℕ, ◌≡◌, refl, sym, Bool, Str, Bytes}
use otelview_postgres.Common.Int.{ℤ}
use otelview_postgres.Hex.{hex}
use otelview_postgres.Otlp
use otelview_postgres.Otlp.{AnyValue, AnyValues, KeyValues}
use otelview_postgres.Json.{
  Json, Items, Fields, null, bool, integer, string, array, object, no_items, item, no_fields,
  insert, json_double, otel_value_to_json, otel_fields, otel_items,
}

mutual
  pub data QueryValue : Type 0 where
    unset : QueryValue
    string_value : Str → QueryValue
    bool_value : Bool → QueryValue
    int_value : ℤ → QueryValue
    double_value : ℕ → QueryValue
    bytes_value : Bytes → QueryValue
    array_value : QueryValues → QueryValue
    kvlist_value : QueryPairs → QueryValue

  pub data QueryValues : Type 0 where
    no_values : QueryValues
    value : QueryValue → QueryValues → QueryValues

  pub data QueryPairs : Type 0 where
    no_pairs : QueryPairs
    query_pair : Str → QueryValue → QueryPairs → QueryPairs
    query_bare : Str → QueryPairs → QueryPairs

unfoldable mutual
  pub query_value_to_json : QueryValue → Json
  query_value_to_json (string_value v) = string v
  query_value_to_json (bool_value v) = bool v
  query_value_to_json (int_value v) = integer v
  query_value_to_json (double_value v) = json_double v
  query_value_to_json (bytes_value v) = string (hex v)
  query_value_to_json (array_value vs) = array (query_items vs)
  query_value_to_json (kvlist_value kvs) = object (query_fields kvs no_fields)
  query_value_to_json unset = null

  pub query_items : QueryValues → Items
  query_items no_values = no_items
  query_items (value v vs) = item (query_value_to_json v) (query_items vs)

  pub query_fields : QueryPairs → Fields → Fields
  query_fields no_pairs acc = acc
  query_fields (query_pair k v kvs) acc = query_fields kvs (insert k (query_value_to_json v) acc)
  query_fields (query_bare k kvs) acc = query_fields kvs (insert k null acc)

-- The value of a query as an attribute value of a span, which has every case of it.
mutual
  pub as_otel : QueryValue → AnyValue
  as_otel unset = Otlp.unset
  as_otel (string_value v) = Otlp.string_value v
  as_otel (bool_value v) = Otlp.bool_value v
  as_otel (int_value v) = Otlp.int_value v
  as_otel (double_value v) = Otlp.double_value v
  as_otel (bytes_value v) = Otlp.bytes_value v
  as_otel (array_value vs) = Otlp.array_value (as_otel_values vs)
  as_otel (kvlist_value kvs) = Otlp.kvlist_value (as_otel_pairs kvs)

  as_otel_values : QueryValues → AnyValues
  as_otel_values no_values = Otlp.nil
  as_otel_values (value v vs) = Otlp.cons (as_otel v) (as_otel_values vs)

  as_otel_pairs : QueryPairs → KeyValues
  as_otel_pairs no_pairs = Otlp.end
  as_otel_pairs (query_pair k v kvs) = Otlp.pair k (as_otel v) (as_otel_pairs kvs)
  as_otel_pairs (query_bare k kvs) = Otlp.bare k (as_otel_pairs kvs)

mutual
  unfolding query_value_to_json otel_value_to_json as_otel

  value_agrees : (q : QueryValue) → otel_value_to_json (as_otel q) ≡ query_value_to_json q
  value_agrees unset = refl
  value_agrees (string_value v) = refl
  value_agrees (bool_value v) = refl
  value_agrees (int_value v) = refl
  value_agrees (double_value v) = refl
  value_agrees (bytes_value v) = refl
  value_agrees (array_value vs) = cc (items_agree vs)
  value_agrees (kvlist_value kvs) = cc (fields_agree kvs no_fields)

  items_agree : (qs : QueryValues) → otel_items (as_otel_values qs) ≡ query_items qs
  items_agree no_values = refl
  items_agree (value v vs) = cc (value_agrees v, items_agree vs)

  fields_agree :
      (qs : QueryPairs) (acc : Fields) → otel_fields (as_otel_pairs qs) acc ≡ query_fields qs acc
  fields_agree no_pairs acc = refl
  fields_agree (query_pair k v kvs) acc =
      rw (value_agrees v) (fields_agree kvs (insert k (query_value_to_json v) acc))
  fields_agree (query_bare k kvs) acc = fields_agree kvs (insert k null acc)

-- A value in a trace query renders to the JSON that the same value has as a span's attribute, at
-- every nesting of arrays and objects.
pub query_value_to_json-as_otel :
    (q : QueryValue) → query_value_to_json q ≡ otel_value_to_json (as_otel q)
query_value_to_json-as_otel q = sym (value_agrees q)
