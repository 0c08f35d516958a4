-- ===== src/Convert/Flat.antt =====
-- The map of a struct against the list of its fields with the embedded structs flattened.
use orcacommon.Common.{
  ◌≡◌, refl, sym, ap, ◌∙◌, if◌then◌else◌, true, false, Option, none, some, List, [], ◌∷◌, ◌++◌,
  arith, Bool-cases, inl, inr,
}
use orcacommon.Common.Text.{Text, text_eq}
use orcacommon.Common.Text.Laws.{text_eq_iff}
use orcacommon.Convert.{
  Options, Value, struct, Fields, no_fields, field, Out, OutMap, empty_map, pair, find_pair,
  set_pair, merge, key_of, is_omitted, convert_value, convert_fields,
}

-- The keys and the results of the fields in their order, those of embedded structs among them.
unfoldable pub flatten : Options → Fields → List (Text × Out)
flatten o no_fields = []
flatten o (field name false embedded v rest) = flatten o rest
flatten o (field name true true (struct marshal fields) rest) = flatten o fields ++ flatten o rest
flatten o (field name true embedded v rest) =
    let others = flatten o rest in
    if is_omitted o v then others else (key_of o name, convert_value o v) ∷ others

-- The last value of a key, or else what there was.
unfoldable pub last_of : Text → List (Text × Out) → Option Out → Option Out
last_of k [] d = d
last_of k ((j, v) ∷ xs) d = last_of k xs (if text_eq j k then some v else d)

abbrev pub or_else : Option Out → Option Out → Option Out
or_else none d = d
or_else (some v) d = some v

find_pair-set_pair :
    (k j : Text) (v : Out) (m : OutMap)
    → find_pair k (set_pair j v m) ≡ (if text_eq j k then some v else find_pair k m)
unfolding find_pair set_pair
find_pair-set_pair k j v empty_map = refl
find_pair-set_pair k j v (pair i u m) =
    ground (arith, text_eq_iff i j, text_eq_iff i k, text_eq_iff j k, find_pair-set_pair k j v m)

find_pair-merge :
    (k : Text) (e m : OutMap) → find_pair k (merge e m) ≡ or_else (find_pair k e) (find_pair k m)
unfolding merge find_pair
find_pair-merge k empty_map m = refl
find_pair-merge k (pair j v e) m =
    ground (arith, find_pair-set_pair k j v (merge e m), find_pair-merge k e m)

last_of-append :
    (k : Text) (xs ys : List (Text × Out)) (d : Option Out)
    → last_of k (xs ++ ys) d ≡ last_of k ys (last_of k xs d)
unfolding last_of
last_of-append k [] ys d = refl
last_of-append k ((j, v) ∷ xs) ys d = last_of-append k xs ys (if text_eq j k then some v else d)

or_else_assoc : (a b d : Option Out) → or_else (or_else a b) d ≡ or_else a (or_else b d)
or_else_assoc none b d = refl
or_else_assoc (some v) b d = refl

last_of-or_else :
    (k : Text) (xs : List (Text × Out)) (d : Option Out)
    → last_of k xs d ≡ or_else (last_of k xs none) d
unfolding last_of
last_of-or_else k [] d = refl
last_of-or_else k ((j, v) ∷ xs) d =
    let seen = last_of-or_else k xs (some v) in
    let unseen = last_of-or_else k xs d in
    elim (Bool-cases (text_eq j k)) [
      | inl e ↦
          rw e
            (seen ∙ sym (ap (λ t. or_else t d) seen ∙ or_else_assoc (last_of k xs none) (some v) d))
      | inr e ↦ rw e unseen
    ]

-- A field that is not an embedded struct.
own_field :
    (o : Options) (name : Text) (v : Value) (rest : Fields) (m : OutMap) (k : Text)
    → ((n : OutMap)
        → find_pair k (convert_fields o rest n) ≡ last_of k (flatten o rest) (find_pair k n))
    → find_pair k (
        convert_fields o rest
          (if is_omitted o v then m else set_pair (key_of o name) (convert_value o v) m))
      ≡ last_of k
          (if is_omitted o v
            then flatten o rest
            else (key_of o name, convert_value o v) ∷ flatten o rest)
          (find_pair k m)
unfolding last_of
own_field o name v rest m k h = elim (Bool-cases (is_omitted o v)) [
  | inl e ↦ rw e (h m)
  | inr e ↦ rw e (
      h (set_pair (key_of o name) (convert_value o v) m)
      ∙ ap (last_of k (flatten o rest))
          (find_pair-set_pair k (key_of o name) (convert_value o v) m))
]

-- The map of a struct has under each key the result of the last field with that key, where embedded
-- structs stand for their fields, and fields that are not exported or are omitted are left out; other
-- keys keep what the map had before.
pub find_pair-convert_fields :
    (o : Options) (fields : Fields) (m : OutMap) (k : Text)
    → find_pair k (convert_fields o fields m) ≡ last_of k (flatten o fields) (find_pair k m)
unfolding convert_fields flatten find_pair last_of
find_pair-convert_fields o no_fields m k = refl
find_pair-convert_fields o (field name false embedded v rest) m k =
    find_pair-convert_fields o rest m k
find_pair-convert_fields o (field name true true (struct marshal fields) rest) m k =
    let inner = find_pair-convert_fields o fields empty_map k in
    find_pair-convert_fields o rest (merge (convert_fields o fields empty_map) m) k
    ∙ (ap (last_of k (flatten o rest)) (
          find_pair-merge k (convert_fields o fields empty_map) m
          ∙ (ap (λ t. or_else t (find_pair k m)) inner
              ∙ sym (last_of-or_else k (flatten o fields) (find_pair k m))))
        ∙ sym (last_of-append k (flatten o fields) (flatten o rest) (find_pair k m)))
find_pair-convert_fields o (field name true false v rest) m k =
    own_field o name v rest m k (λ n. find_pair-convert_fields o rest n k)
find_pair-convert_fields o (field name true true v rest) m k =
    own_field o name v rest m k (λ n. find_pair-convert_fields o rest n k)
