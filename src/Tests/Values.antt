-- ===== src/Tests/Values.antt =====
-- A schema with an integer that must be given and a text that may be null.
use Prim.Native.Nat.{Ordering}
use Prim.Native.String.{String, compare}
use mathlib.Core.Option.{Option, none, some}
use telldb.Base.{ℕ, ◌≡◌, refl, [], ◌∷◌, map, true, false}
use telldb.Field.{Field, FieldType, normalint, null, same_type, type_of}
use telldb.Transaction.Values.{
  Schema, SchemaField, FitsFields, given, build_tuple, build_tuple-FitsFields,
}

abbrev number_field : SchemaField
number_field = record { name = "number"; type = FieldType.normal_int; not_null = true }

abbrev name_field : SchemaField
name_field = record { name = "name"; type = FieldType.text_string; not_null = false }

abbrev people : Schema
people = record { fixed_size_fields = number_field ∷ []; var_size_fields = name_field ∷ [] }

abbrev only_number : String → Option (Field ℕ ℕ ℕ)
only_number name = elim (compare name "number") [ Ordering.eq ↦ some (normalint 7) | _ ↦ none ]

build_tuple-FitsFields_example :
    FitsFields only_number (number_field ∷ name_field ∷ []) (normalint 7 ∷ null ∷ [])
    × (normalint 7 ∷ null ∷ [] ≡ map (given only_number) (number_field ∷ name_field ∷ []))
unfolding build_tuple same_type type_of
build_tuple-FitsFields_example =
    build_tuple-FitsFields only_number people (normalint 7 ∷ null ∷ []) refl
