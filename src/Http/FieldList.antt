-- ===== src/Http/FieldList.antt =====
-- One implementation of the interface of header fields, for the concrete inputs of the tests.
use ntonix.Common.{refl, List, [], ◌∷◌, Option, none, some, if◌then◌else◌, Text, codes, arith}
use ntonix.Common.Decimal.{to_decimal}
use ntonix.Http.{Field, content_length, same_field, Entry, FieldsOf}

-- Header fields as a list, in which the first field of a name is found
abbrev pub FieldList : Type 0
FieldList = List (Field × Text)

abbrev pub find_field : Field → FieldList → Option Text
find_field g [] = none
find_field g ((f, v) ∷ h) = if same_field f g then some v else find_field g h

abbrev pub all_entries : FieldList → List Entry
all_entries [] = []
all_entries ((f, v) ∷ h) =
    record { name = f; name_string = codes "Field"; value = v } ∷ all_entries h

instance abbrev pub field_list : FieldsOf FieldList
field_list = record {
  no_fields = [];
  set = λ f v h. (f, v) ∷ h;
  lookup = find_field;
  entries = all_entries;
  prepare_payload = λ method size h. (content_length, to_decimal size) ∷ h;
  lookup-no_fields = λ f. refl;
  lookup-set = λ f g v h. refl;
  lookup-prepare_payload = λ f method size h e. ground (arith, e);
}
