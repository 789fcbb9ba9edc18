-- ===== src/Json/Sorted.antt =====
-- Sorting the keys of a JSON value again changes nothing.
use astrbot_plugin_groupmate.Prelude.{
  text_leb, text_leb_total, String, ◌≡◌, refl, ap, ap₂, ◌∙◌, true, Bool-cases, inl, inr,
}
use astrbot_plugin_groupmate.Json.{
  Json, null, boolean, int, float, text, array, object, Items, nil, cons, Fields, end, field,
  insert_field, sorted_json, sorted_items, sorted_fields,
}

-- The values are sorted.
abbrev AreNormal : Fields → Type 0
AreNormal end = Unit {0}
AreNormal (field k v rest) = (sorted_json v ≡ v) × AreNormal rest

-- A key may stand in front.
abbrev IsFirst : String → Fields → Type 0
IsFirst k end = Unit {0}
IsFirst k (field j w rest) = text_leb k j ≡ true

abbrev IsInOrder : Fields → Type 0
IsInOrder end = Unit {0}
IsInOrder (field k v rest) = IsFirst k rest × IsInOrder rest

insert_field-AreNormal :
    (k : String) (v : Json) (fs : Fields)
    → sorted_json v ≡ v
    → AreNormal fs
    → AreNormal (insert_field k v fs)
unfolding insert_field
insert_field-AreNormal k v end h n = (h, tt)
insert_field-AreNormal k v (field j w rest) h n = elim (Bool-cases (text_leb k j)) [
  | inl before ↦ rw before (h, n)
  | inr behind ↦ rw behind (n.0, insert_field-AreNormal k v rest h n.1)
]

insert_field-IsFirst :
    (j k : String) (v : Json) (fs : Fields)
    → text_leb j k ≡ true
    → IsFirst j fs
    → IsFirst j (insert_field k v fs)
unfolding insert_field
insert_field-IsFirst j k v end h first = h
insert_field-IsFirst j k v (field i w rest) h first = elim (Bool-cases (text_leb k i)) [
  | inl before ↦ rw before h
  | inr behind ↦ rw behind first
]

insert_field-IsInOrder :
    (k : String) (v : Json) (fs : Fields) → IsInOrder fs → IsInOrder (insert_field k v fs)
unfolding insert_field
insert_field-IsInOrder k v end o = (tt, tt)
insert_field-IsInOrder k v (field j w rest) o = elim (Bool-cases (text_leb k j)) [
  | inl before ↦ rw before (before, o)
  | inr behind ↦ rw behind (
    insert_field-IsFirst j k v rest (text_leb_total k j behind) o.0,
    insert_field-IsInOrder k v rest o.1,
  )
]

insert_field_first :
    (k : String) (v : Json) (fs : Fields) → IsFirst k fs → insert_field k v fs ≡ field k v fs
unfolding insert_field
insert_field_first k v end h = refl
insert_field_first k v (field j w rest) h = rw h

sorted_fields_same : (fs : Fields) → AreNormal fs → IsInOrder fs → sorted_fields fs ≡ fs
unfolding sorted_fields
sorted_fields_same end n o = refl
sorted_fields_same (field k v rest) n o =
    ap₂ (λ w ws. insert_field k w ws) n.0 (sorted_fields_same rest n.1 o.1)
    ∙ insert_field_first k v rest o.0

mutual
  unfolding sorted_json sorted_items sorted_fields

  sorted_json-normal : (v : Json) → sorted_json (sorted_json v) ≡ sorted_json v
  sorted_json-normal null = refl
  sorted_json-normal (boolean b) = refl
  sorted_json-normal (int z) = refl
  sorted_json-normal (float m e) = refl
  sorted_json-normal (text s) = refl
  sorted_json-normal (array items) = ap array (sorted_items-normal items)
  sorted_json-normal (object fields) =
      let (n, o) = sorted_fields-sorted fields in
      ap object (sorted_fields_same (sorted_fields fields) n o)

  sorted_items-normal : (vs : Items) → sorted_items (sorted_items vs) ≡ sorted_items vs
  sorted_items-normal nil = refl
  sorted_items-normal (cons v rest) = ap₂ cons (sorted_json-normal v) (sorted_items-normal rest)

  sorted_fields-sorted : (fs : Fields) → AreNormal (sorted_fields fs) × IsInOrder (sorted_fields fs)
  sorted_fields-sorted end = (tt, tt)
  sorted_fields-sorted (field k v rest) =
      let (n, o) = sorted_fields-sorted rest in
      (
        insert_field-AreNormal k (sorted_json v) (sorted_fields rest) (sorted_json-normal v) n,
        insert_field-IsInOrder k (sorted_json v) (sorted_fields rest) o,
      )

pub sorted_fields-normal : (fs : Fields) → sorted_fields (sorted_fields fs) ≡ sorted_fields fs
sorted_fields-normal fs =
    let (n, o) = sorted_fields-sorted fs in sorted_fields_same (sorted_fields fs) n o
