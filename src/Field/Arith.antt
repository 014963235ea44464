-- ===== src/Field/Arith.antt =====
-- Addition and subtraction of fields.
use telldb.Base.{
  ℕ, ◌+◌, ◌-◌, ltb, if◌then◌else◌, ◌*◌, ◌<◌, ◌≤◌, ◌≡◌, refl, ap, ◌⊎◌, inl, inr, arith,
}
use telldb.Errors.{ok}
use telldb.Field.{
  Field, Primitives, add, sub, lower_half, add_signed, sub_signed, above_least, in_field, add_word,
  sub_word, smallint, normalint, bigint,
}

sub_word-add_word-16 : (a b : ℕ) → a < 65536 → b < 65536 → sub_word 65536 (add_word 65536 a b) b ≡ a
sub_word-add_word-16 a b h k = omega arith

-- The sum of two signed integers, as two's complements, lies in the range: their signs differ, or
-- both are not negative, or both are negative.
abbrev pub InRange : ℕ → ℕ → ℕ → Type 0
InRange half a b =
    ((a < half) × (half ≤ b))
    ⊎ ((half ≤ a) × (b < half))
    ⊎ ((a < half) × (b < half) × (a + b < half))
    ⊎ ((half ≤ a) × (half ≤ b) × (3 * half ≤ a + b))

above_least-32 :
    (a : ℕ)
    → a < 4294967296
    → above_least 2147483648 a ≡ (if ltb a 2147483648 then a + 2147483648 else a - 2147483648)
unfolding above_least
above_least-32 a h = ground arith

add_signed-32 :
    (a b : ℕ)
    → a < 4294967296
    → b < 4294967296
    → InRange 2147483648 a b
    → add_signed 2147483648 a b ≡ ok (add_word 4294967296 a b)
unfolding add_signed
add_signed-32 a b h k r =
    let p = above_least-32 a h in let q = above_least-32 b k in ground (arith, r, p, q)

sub_signed-32 :
    (a b : ℕ)
    → a < 4294967296
    → b < 4294967296
    → InRange 2147483648 a b
    → sub_signed 2147483648 (add_word 4294967296 a b) b ≡ ok a
unfolding sub_signed
sub_signed-32 a b h k r =
    let p = above_least-32 (add_word 4294967296 a b) (omega arith) in
    let q = above_least-32 b k in ground (arith, r, p, q)

above_least-64 :
    (a : ℕ)
    → a < 18446744073709551616
    → above_least 9223372036854775808 a
      ≡ (if ltb a 9223372036854775808 then a + 9223372036854775808 else a - 9223372036854775808)
unfolding above_least
above_least-64 a h = ground arith

add_signed-64 :
    (a b : ℕ)
    → a < 18446744073709551616
    → b < 18446744073709551616
    → InRange 9223372036854775808 a b
    → add_signed 9223372036854775808 a b ≡ ok (add_word 18446744073709551616 a b)
unfolding add_signed
add_signed-64 a b h k r =
    let p = above_least-64 a h in let q = above_least-64 b k in ground (arith, r, p, q)

sub_signed-64 :
    (a b : ℕ)
    → a < 18446744073709551616
    → b < 18446744073709551616
    → InRange 9223372036854775808 a b
    → sub_signed 9223372036854775808 (add_word 18446744073709551616 a b) b ≡ ok a
unfolding sub_signed
sub_signed-64 a b h k r =
    let p = above_least-64 (add_word 18446744073709551616 a b) (omega arith) in
    let q = above_least-64 b k in ground (arith, r, p, q)

lower_half_lem :
    (b : ℕ)
    → (b < 2147483648) ⊎ ((18446744071562067968 ≤ b) × (b < 18446744073709551616))
    → lower_half b ≡ b
unfolding lower_half
lower_half_lem b (inl h) = ground arith
lower_half_lem b (inr h) = ground arith

lower_half_multiple : (k : ℕ) → lower_half (k * 4294967296) ≡ 0
unfolding lower_half
lower_half_multiple k = ground arith

subtract_nothing : (a : ℕ) → a < 18446744073709551616 → sub_signed 9223372036854775808 a 0 ≡ ok a
unfolding sub_signed
subtract_nothing a h = let p = above_least-64 a h in ground (arith, p)

module _ {F D S : Type 0} (prim : Primitives F D S) where
  -- Integers of one type within its range, with a sum in the range unless they have 16 bits. The
  -- second of two 64-bit integers fits into 32 bits.
  pub data Addends : Field F D S → Field F D S → Type 0 where
    small : (a b : ℕ) → a < 65536 → b < 65536 → Addends (smallint a) (smallint b)
    normal :
        (a b : ℕ)
        → a < 4294967296
        → b < 4294967296
        → InRange 2147483648 a b
        → Addends (normalint a) (normalint b)
    big :
        (a b : ℕ)
        → a < 18446744073709551616
        → (b < 2147483648) ⊎ ((18446744071562067968 ≤ b) × (b < 18446744073709551616))
        → InRange 9223372036854775808 a b
        → Addends (bigint a) (bigint b)

  -- For integers of one type, the second of which fits into 32 bits, whose sum does not overflow
  -- where that is undefined: addition gives a field from which subtraction gives the first back.
  -- A sum of 16-bit integers may wrap around.
  pub sub-add :
      (a b : Field F D S)
      → Addends a b
      → (c : Field F D S) × (add prim a b ≡ ok c) × (sub prim c b ≡ ok a)
  unfolding add sub
  sub-add _ _ (Addends.small a b h k) = (
    smallint (add_word 65536 a b),
    refl,
    ap (λ n. ok (smallint n)) (sub_word-add_word-16 a b h k),
  )
  sub-add _ _ (Addends.normal a b h k r) = (
    normalint (add_word 4294967296 a b),
    ap (in_field normalint) (add_signed-32 a b h k r),
    ap (in_field normalint) (sub_signed-32 a b h k r),
  )
  sub-add _ _ (Addends.big a b h k r) = (
    bigint (add_word 18446744073709551616 a b),
    ap (in_field bigint) (add_signed-64 a b h (ground arith) r),
    rw (lower_half_lem b k) (ap (in_field bigint) (sub_signed-64 a b h (ground arith) r)),
  )

  -- The subtraction of a multiple of 2 ^ 32 from a 64-bit integer changes nothing.
  pub sub_multiple :
      (a k : ℕ)
      → a < 18446744073709551616
      → sub prim (bigint a) (bigint (k * 4294967296)) ≡ ok (bigint a)
  unfolding sub
  sub_multiple a k h = rw (lower_half_multiple k) (ap (in_field bigint) (subtract_nothing a h))
