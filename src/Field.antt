-- ===== src/Field.antt =====
-- `Field` (telldb/Field.hpp, src/Field.cpp). An integer of w bits is its two's complement, a number
-- below 2 ^ w. A sum or difference of 16-bit integers, which the code computes as `int`, wraps around
-- when it is stored; one of 32-bit or of 64-bit integers that does not fit is undefined. `F`, `D` and `S` are `float`, `double`
-- and `crossbow::string`, with the operations of `Primitives`.
pub mod Order
pub mod Arith
pub mod Union
pub mod View
pub mod Lives
use telldb.Base.{ℕ, ◌+◌, ◌-◌, ◌*◌, ◌^◌, ◌%◌, Bool, true, false, not, ◌&&◌, ◌||◌, ltb, if◌then◌else◌}
use telldb.Errors.{Result, ok, err, invalid_argument, dangling}

pub data FieldType : Type 0 where
  no_type null_type small_int normal_int big_int float_nr double_nr text_string blob_string :
      FieldType

pub data Field (F D S : Type 0) : Type 0 where
  untyped null : Field F D S
  smallint normalint bigint : ℕ → Field F D S
  float : F → Field F D S
  double : D → Field F D S
  text blob : S → Field F D S

pub record Primitives (F D S : Type 0) : Type 0 where
  pub float_less : F → F → Bool
  pub float_add : F → F → F
  pub float_sub : F → F → F
  pub double_less : D → D → Bool
  pub double_add : D → D → D
  pub double_sub : D → D → D
  pub string_less : S → S → Bool
  pub string_append : S → S → S

-- `<` of signed integers, and the wrapped sum and difference.
unfoldable pub less_signed : ℕ → ℕ → ℕ → Bool
less_signed half a b = ltb ((a + half) % (2 * half)) ((b + half) % (2 * half))

abbrev pub add_word : ℕ → ℕ → ℕ → ℕ
add_word modulus a b = (a + b) % modulus

abbrev pub sub_word : ℕ → ℕ → ℕ → ℕ
sub_word modulus a b = (a + (modulus - b)) % modulus

-- `+=` and `-=` of signed integers whose range is `half` on both sides of 0. `a + half`, without
-- overflow, is the number plus `half`.
unfoldable pub above_least : ℕ → ℕ → ℕ
above_least half a = (a + half) % (2 * half)

unfoldable pub add_signed : ℕ → ℕ → ℕ → Result ℕ
unfolding above_least
add_signed half a b =
    let sum = above_least half a + above_least half b in
    if ltb sum half || not (ltb sum (3 * half)) then err dangling else ok (add_word (2 * half) a b)

unfoldable pub sub_signed : ℕ → ℕ → ℕ → Result ℕ
unfolding above_least
sub_signed half a b =
    if ltb (above_least half a + half) (above_least half b)
      || not (ltb (above_least half a) (above_least half b + half))
    then err dangling
    else ok (sub_word (2 * half) a b)

-- The field of a result.
abbrev pub in_field : {A B : Type 0} → (A → B) → Result A → Result B
in_field f (ok n) = ok (f n)
in_field f (err e) = err e

-- The member `normalint` of a union that holds `bigint`, as a 64-bit integer: its lower half, with
-- its sign.
unfoldable pub lower_half : ℕ → ℕ
lower_half x =
    if ltb (x % 4294967296) 2147483648
    then x % 4294967296
    else x % 4294967296 + 18446744069414584320

unfoldable pub same_type : FieldType → FieldType → Bool
same_type FieldType.no_type FieldType.no_type = true
same_type FieldType.null_type FieldType.null_type = true
same_type FieldType.small_int FieldType.small_int = true
same_type FieldType.normal_int FieldType.normal_int = true
same_type FieldType.big_int FieldType.big_int = true
same_type FieldType.float_nr FieldType.float_nr = true
same_type FieldType.double_nr FieldType.double_nr = true
same_type FieldType.text_string FieldType.text_string = true
same_type FieldType.blob_string FieldType.blob_string = true
same_type _ _ = false

module _ {F D S : Type 0} where
  -- `type`
  unfoldable pub type_of : Field F D S → FieldType
  type_of untyped = FieldType.no_type
  type_of null = FieldType.null_type
  type_of (smallint a) = FieldType.small_int
  type_of (normalint a) = FieldType.normal_int
  type_of (bigint a) = FieldType.big_int
  type_of (float a) = FieldType.float_nr
  type_of (double a) = FieldType.double_nr
  type_of (text a) = FieldType.text_string
  type_of (blob a) = FieldType.blob_string

module _ {F D S : Type 0} (prim : Primitives F D S) where
  open prim use {
    float_less, float_add, float_sub, double_less, double_add, double_sub, string_less,
    string_append,
  }

  -- The switches of `operator<`, `operator+=` and `operator-=`, which come after the test that the
  -- types are the same.
  unfoldable pub less_same : Field F D S → Field F D S → Result Bool
  unfolding less_signed
  less_same null _ = ok false
  less_same (smallint a) (smallint b) = ok (less_signed 32768 a b)
  less_same (normalint a) (normalint b) = ok (less_signed 2147483648 a b)
  less_same (bigint a) (bigint b) = ok (less_signed 9223372036854775808 a b)
  less_same (float a) (float b) = ok (float_less a b)
  less_same (double a) (double b) = ok (double_less a b)
  less_same (text a) (text b) = ok (string_less a b)
  less_same _ _ = err invalid_argument

  unfoldable pub add_same : Field F D S → Field F D S → Result (Field F D S)
  unfolding add_signed
  add_same null _ = ok null
  add_same (smallint a) (smallint b) = ok (smallint (add_word 65536 a b))
  add_same (normalint a) (normalint b) = in_field normalint (add_signed 2147483648 a b)
  add_same (bigint a) (bigint b) = in_field bigint (add_signed 9223372036854775808 a b)
  add_same (float a) (float b) = ok (float (float_add a b))
  add_same (double a) (double b) = ok (double (double_add a b))
  add_same (text a) (text b) = ok (text (string_append a b))
  add_same _ _ = err invalid_argument

  unfoldable pub sub_same : Field F D S → Field F D S → Result (Field F D S)
  unfolding lower_half sub_signed
  sub_same null _ = ok null
  sub_same (smallint a) (smallint b) = ok (smallint (sub_word 65536 a b))
  sub_same (normalint a) (normalint b) = in_field normalint (sub_signed 2147483648 a b)
  sub_same (bigint a) (bigint b) = in_field bigint (sub_signed 9223372036854775808 a (lower_half b))
  sub_same (float a) (float b) = ok (float (float_sub a b))
  sub_same (double a) (double b) = ok (double (double_sub a b))
  sub_same _ _ = err invalid_argument

  unfoldable pub less : Field F D S → Field F D S → Result Bool
  unfolding less_same same_type type_of
  less a b = if same_type (type_of a) (type_of b) then less_same a b else err invalid_argument

  unfoldable pub add : Field F D S → Field F D S → Result (Field F D S)
  unfolding add_same same_type type_of
  add a b = if same_type (type_of a) (type_of b) then add_same a b else err invalid_argument

  unfoldable pub sub : Field F D S → Field F D S → Result (Field F D S)
  unfolding sub_same same_type type_of
  sub a b = if same_type (type_of a) (type_of b) then sub_same a b else err invalid_argument

  -- `p || !q` and `!p && !q`, where the second comparison is made only if the first asks for it.
  abbrev pub or_not : Result Bool → Result Bool → Result Bool
  or_not (err e) q = err e
  or_not (ok true) q = ok true
  or_not (ok false) (err e) = err e
  or_not (ok false) (ok b) = ok (not b)

  abbrev pub not_and_not : Result Bool → Result Bool → Result Bool
  not_and_not (err e) q = err e
  not_and_not (ok true) q = ok false
  not_and_not (ok false) (err e) = err e
  not_and_not (ok false) (ok b) = ok (not b)

  unfoldable pub less_equal : Field F D S → Field F D S → Result Bool
  unfolding less
  less_equal a b = or_not (less a b) (less b a)

  unfoldable pub greater : Field F D S → Field F D S → Result Bool
  unfolding less
  greater a b = less b a

  unfoldable pub greater_equal : Field F D S → Field F D S → Result Bool
  unfolding less
  greater_equal a b = or_not (less b a) (less a b)

  unfoldable pub equal : Field F D S → Field F D S → Result Bool
  unfolding less
  equal a b = not_and_not (less a b) (less b a)
