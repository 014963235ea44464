-- ===== src/Field/Union.antt =====
-- The union of `Field` and the life of its string (telldb/Field.hpp): the constructors, the copy, the
-- assignment and the destructor. The state is the number of strings that are alive. What a field
-- holds after its string was destroyed, or before anything is written, is `blank`; to read another
-- member than the one that was written, or to destroy a string that is none, is undefined.
use telldb.Base.{ℕ, ◌+◌, ◌-◌, Bool, true, false, if◌then◌else◌}
use telldb.Errors.{done, raise, Method, ◌>>=◌, dangling}
use telldb.Field.{FieldType, same_type}

-- The member of the union that was written last.
pub data Content (F D S : Type 0) : Type 0 where
  blank : Content F D S
  of_string : S → Content F D S
  of_smallint of_normalint of_bigint : ℕ → Content F D S
  of_float : F → Content F D S
  of_double : D → Content F D S

pub record RawField (F D S : Type 0) : Type 0 where
  pub type : FieldType
  pub content : Content F D S

-- `mType == TEXT || mType == BLOB`
abbrev pub is_string : FieldType → Bool
is_string FieldType.text_string = true
is_string FieldType.blob_string = true
is_string _ = false

module _ {F D S : Type 0} where
  -- `new (&str) crossbow::string(value)`
  unfoldable pub construct : S → Method ℕ (Content F D S)
  construct s n = done (n + 1) (of_string s)

  -- `str.~basic_string()`
  unfoldable pub destroy_string : Content F D S → Method ℕ (Content F D S)
  destroy_string (of_string s) n = done (n - 1) blank
  destroy_string _ n = raise n dangling

  unfoldable pub read_string : Content F D S → Method ℕ S
  read_string (of_string s) n = done n s
  read_string _ n = raise n dangling

  -- The member of a type that is no string.
  unfoldable pub read_member : FieldType → Content F D S → Method ℕ (Content F D S)
  read_member FieldType.small_int (of_smallint a) n = done n (of_smallint a)
  read_member FieldType.normal_int (of_normalint a) n = done n (of_normalint a)
  read_member FieldType.big_int (of_bigint a) n = done n (of_bigint a)
  read_member FieldType.float_nr (of_float a) n = done n (of_float a)
  read_member FieldType.double_nr (of_double a) n = done n (of_double a)
  read_member _ _ n = raise n dangling

  -- The switch of the copy and of the assignment, over what the target holds.
  unfoldable pub copy_content : FieldType → Content F D S → Content F D S → Method ℕ (Content F D S)
  unfolding construct read_string read_member
  copy_content FieldType.no_type old other = λ n. done n old
  copy_content FieldType.null_type old other = λ n. done n old
  copy_content FieldType.text_string old other = do s ← read_string other; construct s
  copy_content FieldType.blob_string old other = do s ← read_string other; construct s
  copy_content t old other = read_member t other

  -- The constructors.
  unfoldable pub new_null : Method ℕ (RawField F D S)
  new_null n = done n (record { type = FieldType.null_type; content = blank })

  unfoldable pub new_smallint : ℕ → Method ℕ (RawField F D S)
  new_smallint a n = done n (record { type = FieldType.small_int; content = of_smallint a })

  unfoldable pub new_normalint : ℕ → Method ℕ (RawField F D S)
  new_normalint a n = done n (record { type = FieldType.normal_int; content = of_normalint a })

  unfoldable pub new_bigint : ℕ → Method ℕ (RawField F D S)
  new_bigint a n = done n (record { type = FieldType.big_int; content = of_bigint a })

  unfoldable pub new_float : F → Method ℕ (RawField F D S)
  new_float a n = done n (record { type = FieldType.float_nr; content = of_float a })

  unfoldable pub new_double : D → Method ℕ (RawField F D S)
  new_double a n = done n (record { type = FieldType.double_nr; content = of_double a })

  unfoldable pub new_text : S → Method ℕ (RawField F D S)
  unfolding construct
  new_text s = do
    c ← construct s
    λ n. done n (record { type = FieldType.text_string; content = c })

  abbrev pub fill : RawField F D S → Content F D S → Method ℕ (RawField F D S)
  fill other old = do
    c ← copy_content other.type old other.content
    λ n. done n (record { type = other.type; content = c })

  unfoldable pub copy_field : RawField F D S → Method ℕ (RawField F D S)
  unfolding copy_content
  copy_field other = fill other blank

  unfoldable pub destroy_field : RawField F D S → Method ℕ (Unit {0})
  unfolding destroy_string
  destroy_field f =
      if is_string f.type then (do c ← destroy_string f.content; λ n. done n tt) else λ n. done n tt

  -- `operator=`
  unfoldable pub assign_field : RawField F D S → RawField F D S → Method ℕ (RawField F D S)
  unfolding copy_content destroy_string read_string same_type
  assign_field f other =
      if is_string f.type
      then if same_type other.type f.type
        then (do
          s ← read_string other.content
          old ← read_string f.content
          λ n. done n (record f { content = of_string s }))
        else (do c ← destroy_string f.content; fill other c)
      else fill other f.content
