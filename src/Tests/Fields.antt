-- ===== src/Tests/Fields.antt =====
-- Fields whose floating point numbers are numbers and whose strings are lists.
use telldb.Base.{ℕ, inl, refl, ◌+◌, ◌-◌, ◌≡◌, arith, ltb}
use telldb.Errors.{ok, done}
use telldb.Field.{FieldType, Field, Primitives, add, sub, normalint, text, same_type, type_of}
use telldb.Field.Union.{RawField, of_string, of_normalint, copy_field, assign_field, destroy_field}
use telldb.Field.Lives.{Holds, fields_lem}
use telldb.Field.Order.{Agree, Asymmetric, comparisons}
use telldb.Field.Arith.{Addends, sub-add}
use telldb.Tests.Data.{ltb_asym}

abbrev naturals : Primitives ℕ ℕ ℕ
naturals = record {
  float_less = ltb;
  float_add = λ a b. a + b;
  float_sub = λ a b. a - b;
  double_less = ltb;
  double_add = λ a b. a + b;
  double_sub = λ a b. a - b;
  string_less = ltb;
  string_append = λ a b. a + b;
}

naturals-Asymmetric : Asymmetric naturals
naturals-Asymmetric = record { of_float = ltb_asym; of_double = ltb_asym; of_string = ltb_asym }

comparisons_example : Agree naturals (normalint 5) (normalint 4294967295)
unfolding same_type type_of
comparisons_example =
    comparisons naturals naturals-Asymmetric (normalint 5) (normalint 4294967295) (omega arith)
      (omega arith)

-- 5 and -7.
sub-add_example :
    (c : Field ℕ ℕ ℕ) × (add naturals (normalint 5) (normalint 4294967289) ≡ ok c)
    × (sub naturals c (normalint 4294967289) ≡ ok (normalint 5))
sub-add_example =
    sub-add naturals (normalint 5) (normalint 4294967289)
      (Addends.normal 5 4294967289 (omega arith) (omega arith) (inl (omega arith, omega arith)))

-- A text, and a number to assign to it.
abbrev raw_text : RawField ℕ ℕ ℕ
raw_text = record { type = FieldType.text_string; content = of_string 5 }

abbrev raw_number : RawField ℕ ℕ ℕ
raw_number = record { type = FieldType.normal_int; content = of_normalint 7 }

fields_lem_example :
    Holds (normalint 7) 2 (copy_field raw_number 2)
    × Holds (normalint 7) 1 (assign_field raw_text raw_number 2)
    × (destroy_field raw_text 2 ≡ done 1 tt)
fields_lem_example = fields_lem raw_text raw_number (text 5) (normalint 7) 2 refl refl (omega arith)
