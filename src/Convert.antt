-- ===== src/Convert.antt =====
-- utils/convert.go: turning a struct into a map by reflection. A value is what reflection sees of it.
pub mod Keys
pub mod Flat
mod Tests
use orcacommon.Common.{
  ℕ, ◌-◌, ◌+◌, leb, ltb, ◌&&◌, ◌||◌, not, if◌then◌else◌, Bool, true, false, Option, none, some,
  List, [], ◌∷◌, ◌++◌, length, take,
}
use orcacommon.Common.Text.{Text, codes, text_eq, has_suffix}

-- `options`, which the functions `With...` set.
pub record Options : Type 0 where
  pub id_suffix : Bool
  pub omit_empty : Bool
  pub nil_map_to_empty : Bool
  pub nil_slice_to_empty : Bool

-- What `MarshalJSON` of a struct gives, if it has one: an error, or bytes and whether they are JSON.
pub data Marshal : Type 0 where
  no_marshaler : Marshal
  marshal_error : Marshal
  bytes : Text → Bool → Marshal

-- Values by their kind. A field has its name, whether it is exported, whether it is embedded, and its
-- value; a key of a map is none if it is not a string. A scalar is a value of any other kind.
mutual
  pub data Value : Type 0 where
    text : Text → Value
    scalar : ℕ → Value
    nil_ptr : Value
    ptr : Value → Value
    nil_interface : Value
    interface : Value → Value
    struct : Marshal → Fields → Value
    nil_map : Value
    map_of : Entries → Value
    nil_slice : Value
    slice : Items → Value

  pub data Fields : Type 0 where
    no_fields : Fields
    field : Text → Bool → Bool → Value → Fields → Fields

  pub data Entries : Type 0 where
    no_entries : Entries
    entry : Option Text → Value → Entries → Entries

  pub data Items : Type 0 where
    no_items : Items
    item : Value → Items → Items

-- The result: a value as it is, decoded JSON or its bytes, a map or a slice.
mutual
  pub data Out : Type 0 where
    null : Out
    kept : Value → Out
    decoded : Text → Out
    raw : Text → Out
    object : OutMap → Out
    array : OutItems → Out

  pub data OutMap : Type 0 where
    empty_map : OutMap
    pair : Text → Out → OutMap → OutMap

  pub data OutItems : Type 0 where
    empty_items : OutItems
    out_item : Out → OutItems → OutItems

-- `m[k]` and `m[k] = v`.
unfoldable pub find_pair : Text → OutMap → Option Out
find_pair k empty_map = none
find_pair k (pair j v m) = if text_eq j k then some v else find_pair k m

unfoldable pub set_pair : Text → Out → OutMap → OutMap
set_pair k v empty_map = pair k v empty_map
set_pair k v (pair j u m) =
    let rest = set_pair k v m in if text_eq j k then pair k v m else pair j u rest

-- The loop that copies the map of an embedded struct; the order of a map is not specified.
unfoldable pub merge : OutMap → OutMap → OutMap
merge empty_map m = m
merge (pair k v e) m = set_pair k v (merge e m)

-- `strings.ToLower` of one byte: a byte beyond ASCII is not a character of its own, and becomes the
-- replacement character.
unfoldable pub lower_byte : ℕ → Text
lower_byte c =
    if leb b'A' c && leb c b'Z'
    then (c + 32) ∷ []
    else if ltb c 128
    then c ∷ []
    else 239 ∷ 191 ∷ 189 ∷ []

-- `toCamelCase`.
unfoldable pub to_camel_case : Text → Text
to_camel_case [] = []
to_camel_case (c ∷ s) = lower_byte c ++ s

-- The text without its last `n` bytes.
abbrev pub drop_last : ℕ → Text → Text
drop_last n s = take (length s - n) s

-- `convertIDSuffix`.
unfoldable pub convert_id_suffix : Text → Text
convert_id_suffix s =
    if text_eq s (codes "iDs")
    then codes "ids"
    else if has_suffix s (codes "IDs")
    then drop_last 3 s ++ codes "Ids"
    else if text_eq s (codes "iD")
    then codes "id"
    else if has_suffix s (codes "ID")
    then drop_last 2 s ++ codes "Id"
    else s

unfoldable pub key_of : Options → Text → Text
key_of o name = if o.id_suffix then convert_id_suffix (to_camel_case name) else to_camel_case name

-- `isEmptyOmittable`.
unfoldable pub is_empty_omittable : Value → Bool
is_empty_omittable (text []) = true
is_empty_omittable nil_ptr = true
is_empty_omittable nil_interface = true
is_empty_omittable nil_slice = true
is_empty_omittable (slice no_items) = true
is_empty_omittable _ = false

abbrev pub is_omitted : Options → Value → Bool
is_omitted o v = o.omit_empty && is_empty_omittable v

-- What a marshaler gives, or the fields where there is none or it fails.
abbrev pub marshalled : Marshal → OutMap → Out
marshalled no_marshaler fields = object fields
marshalled marshal_error fields = object fields
marshalled (bytes b true) fields = decoded b
marshalled (bytes b false) fields = raw b

unfoldable mutual
  -- `convertValue`.
  pub convert_value : Options → Value → Out
  convert_value o (text s) = kept (text s)
  convert_value o (scalar n) = kept (scalar n)
  convert_value o nil_ptr = null
  convert_value o (ptr v) = convert_value o v
  convert_value o nil_interface = null
  convert_value o (interface v) = kept v
  convert_value o (struct m fields) = marshalled m (convert_fields o fields empty_map)
  convert_value o nil_map = if o.nil_map_to_empty then object empty_map else null
  convert_value o (map_of entries) = object (convert_entries o entries empty_map)
  convert_value o nil_slice = if o.nil_slice_to_empty then array empty_items else null
  convert_value o (slice items) = array (convert_items o items)

  -- The loop of `structToMap` over the fields, with the map so far.
  pub convert_fields : Options → Fields → OutMap → OutMap
  convert_fields o no_fields m = m
  convert_fields o (field name false embedded v rest) m = convert_fields o rest m
  convert_fields o (field name true true (struct marshal fields) rest) m =
      convert_fields o rest (merge (convert_fields o fields empty_map) m)
  convert_fields o (field name true embedded v rest) m =
      convert_fields o rest
        (if is_omitted o v then m else set_pair (key_of o name) (convert_value o v) m)

  pub convert_entries : Options → Entries → OutMap → OutMap
  convert_entries o no_entries m = m
  convert_entries o (entry none v rest) m = convert_entries o rest m
  convert_entries o (entry (some k) v rest) m =
      convert_entries o rest (set_pair k (convert_value o v) m)

  pub convert_items : Options → Items → OutItems
  convert_items o no_items = empty_items
  convert_items o (item v rest) = out_item (convert_value o v) (convert_items o rest)

-- `structToMap` of a value in an interface.
unfoldable pub struct_to_map : Options → Value → Option OutMap
struct_to_map o (struct m fields) = some (convert_fields o fields empty_map)
struct_to_map o (ptr (struct m fields)) = some (convert_fields o fields empty_map)
struct_to_map o _ = none

abbrev pub no_settings : Options
no_settings = record {
  id_suffix = false;
  omit_empty = false;
  nil_map_to_empty = false;
  nil_slice_to_empty = false;
}

abbrev pub Setting : Type 0
Setting = Options → Options

-- `WithIDSuffix`, `WithOmitEmpty`, `WithNilMapToEmpty` and `WithNilSliceToEmpty`.
unfoldable pub with_id_suffix : Setting
with_id_suffix o = record o { id_suffix = true }

unfoldable pub with_omit_empty : Setting
with_omit_empty o = record o { omit_empty = true }

unfoldable pub with_nil_map_to_empty : Setting
with_nil_map_to_empty o = record o { nil_map_to_empty = true }

unfoldable pub with_nil_slice_to_empty : Setting
with_nil_slice_to_empty o = record o { nil_slice_to_empty = true }

abbrev pub set_all : List Setting → Options → Options
set_all [] o = o
set_all (f ∷ fs) o = set_all fs (f o)

-- `StructToMapLC`.
unfoldable pub struct_to_map_lc : Value → List Setting → Option OutMap
struct_to_map_lc v settings = struct_to_map (set_all settings no_settings) v
