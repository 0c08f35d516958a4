-- ===== src/Convert/Tests.antt =====
-- A struct with an embedded one, and the theorems on it.
use orcacommon.Common.{◌≡◌, refl, true, false, some, [], ◌∷◌}
use orcacommon.Common.Text.{codes, text_eq, has_prefix, has_suffix}
use orcacommon.Convert.{
  text, scalar, ptr, struct, nil_slice, no_marshaler, Fields, no_fields, field, kept, array,
  empty_items, empty_map, pair, find_pair, set_pair, merge, lower_byte, to_camel_case,
  convert_id_suffix, key_of, is_empty_omittable, convert_value, convert_fields, struct_to_map,
  struct_to_map_lc, with_id_suffix, with_omit_empty, with_nil_slice_to_empty, no_settings,
}
use orcacommon.Convert.Flat.{flatten, last_of, find_pair-convert_fields}

runs : Unit {0}
unfolding text_eq has_prefix has_suffix find_pair set_pair merge lower_byte to_camel_case
    convert_id_suffix key_of is_empty_omittable convert_value struct_to_map struct_to_map_lc
    with_id_suffix with_omit_empty with_nil_slice_to_empty flatten last_of
runs = tt

abbrev base : Fields
base =
    field (codes "UserID") true false (scalar 1)
      (field (codes "Name") true false (text []) no_fields)

abbrev user : Fields
user = field (codes "Base") true true (struct no_marshaler base) (
    field (codes "secret") false false (scalar 9) (
      field (codes "Tags") true false nil_slice
        (field (codes "UserID") true false (scalar 2) no_fields)))

-- The field of the struct hides that of the embedded one, which comes before it.
converts :
    struct_to_map_lc
      (ptr (struct no_marshaler user))
      (with_id_suffix ∷ with_nil_slice_to_empty ∷ [])
    ≡ some (
        pair (codes "name") (kept (text [])) (
          pair
            (codes "userId")
            (kept (scalar 2))
            (pair (codes "tags") (array empty_items) empty_map)))
unfolding runs
converts = refl

omits :
    struct_to_map_lc (struct no_marshaler user) (with_omit_empty ∷ [])
    ≡ some (pair (codes "userID") (kept (scalar 2)) empty_map)
unfolding runs
omits = refl

-- The first byte of a name beyond ASCII is lost.
breaks_name : to_camel_case (195 ∷ 132 ∷ 98 ∷ []) ≡ 239 ∷ 191 ∷ 189 ∷ 132 ∷ 98 ∷ []
unfolding runs
breaks_name = refl

find_pair-convert_fields_example :
    find_pair (codes "userID") (convert_fields no_settings user empty_map)
    ≡ last_of (codes "userID") (flatten no_settings user) (find_pair (codes "userID") empty_map)
find_pair-convert_fields_example =
    find_pair-convert_fields no_settings user empty_map (codes "userID")
