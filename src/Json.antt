-- ===== src/Json.antt =====
-- JSON values, as the payloads of parts, tasks and events hold them. An integer is a Python `int`;
-- a finite float is a mantissa and an exponent of two. A mapping has each key once.
pub mod Sorted
use astrbot_plugin_groupmate.Prelude.{
  text_leb, ℤ, pos, ℤ-discrete, String, String-discrete, Bool, true, false, not, Option, none, some,
  is_empty, strip, nat_eq, ◌==◌, if◌then◌else◌,
}

mutual
  pub data Json : Type 0 where
    null : Json
    boolean : Bool → Json
    int : ℤ → Json
    float : ℤ → ℤ → Json
    text : String → Json
    array : Items → Json
    object : Fields → Json

  pub data Items : Type 0 where
    nil : Items
    cons : Json → Items → Items

  pub data Fields : Type 0 where
    end : Fields
    field : String → Json → Fields → Fields

unfoldable pub Json-discrete : Discrete Json
Json-discrete = hlevel (String-discrete, ℤ-discrete)

unfoldable pub Fields-discrete : Discrete Fields
Fields-discrete = hlevel (String-discrete, ℤ-discrete)

-- `mapping.get(key)`
unfoldable pub get : String → Fields → Option Json
get key end = none
get key (field k v rest) = if k == key then some v else get key rest

abbrev is_nonzero : ℤ → Bool
is_nonzero (pos n) = not (nat_eq n 0)
is_nonzero _ = true

-- `bool(str(value or "").strip())`: whether the text of a value is there.
unfoldable pub has_text : Json → Bool
unfolding strip
has_text null = false
has_text (boolean b) = b
has_text (int z) = is_nonzero z
has_text (float m e) = is_nonzero m
has_text (text s) = not (is_empty (strip s))
has_text (array nil) = false
has_text (array (cons x xs)) = true
has_text (object end) = false
has_text (object (field k v rest)) = true

-- a field in front of the first whose key is not smaller
unfoldable pub insert_field : String → Json → Fields → Fields
insert_field k v end = field k v end
insert_field k v (field j w rest) =
    if text_leb k j then field k v (field j w rest) else field j w (insert_field k v rest)

-- `json.loads(json.dumps(value, sort_keys=True))`
unfoldable mutual
  pub sorted_json : Json → Json
  sorted_json null = null
  sorted_json (boolean b) = boolean b
  sorted_json (int z) = int z
  sorted_json (float m e) = float m e
  sorted_json (text s) = text s
  sorted_json (array items) = array (sorted_items items)
  sorted_json (object fields) = object (sorted_fields fields)

  pub sorted_items : Items → Items
  sorted_items nil = nil
  sorted_items (cons v rest) = cons (sorted_json v) (sorted_items rest)

  pub sorted_fields : Fields → Fields
  sorted_fields end = end
  sorted_fields (field k v rest) = insert_field k (sorted_json v) (sorted_fields rest)
