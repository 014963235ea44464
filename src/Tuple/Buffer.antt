-- ===== src/Tuple/Buffer.antt =====
-- Bytes in memory, the lowest first in a number.
use telldb.Base.{
  ℕ, zero, suc, ◌+◌, ◌*◌, ◌/◌, ◌%◌, ◌≤◌, ◌<◌, ◌≡◌, refl, ap, ◌∙◌, List, [], ◌∷◌, arith, length,
  ◌==◌, ==_refl, if◌then◌else◌, Bool-cases, inl, inr,
}

abbrev pub Memory : Type 0
Memory = ℕ → ℕ

abbrev pub load : ℕ → Memory → ℕ → List ℕ
load zero m x = []
load (suc n) m x = m x ∷ load n m (x + 1)

abbrev pub put : ℕ → Memory → ℕ → Memory
put b m x y = if x == y then b else m y

abbrev pub store : List ℕ → Memory → ℕ → Memory
store [] m x = m
store (b ∷ bs) m x = store bs (put b m x) (x + 1)

abbrev pub zeros : ℕ → List ℕ
zeros zero = []
zeros (suc n) = 0 ∷ zeros n

abbrev pub encode : ℕ → ℕ → List ℕ
encode zero v = []
encode (suc n) v = v % 256 ∷ encode n (v / 256)

abbrev pub decode : List ℕ → ℕ
decode [] = 0
decode (b ∷ bs) = b + 256 * decode bs

pub length-encode : (n v : ℕ) → length (encode n v) ≡ n
length-encode zero v = refl
length-encode (suc n) v = ap suc (length-encode n (v / 256))

pub length-zeros : (n : ℕ) → length (zeros n) ≡ n
length-zeros zero = refl
length-zeros (suc n) = ap suc (length-zeros n)

-- A number that has so many bytes.
abbrev pub HasBytes : ℕ → ℕ → Type 0
HasBytes zero v = v ≡ 0
HasBytes (suc n) v = HasBytes n (v / 256)

pub decode-encode : (n v : ℕ) → HasBytes n v → decode (encode n v) ≡ v
decode-encode zero v h = omega (arith, h)
decode-encode (suc n) v h = let i = decode-encode n (v / 256) h in omega (arith, i)

pub store-below : (bs : List ℕ) (m : Memory) (x y : ℕ) → y < x → store bs m x y ≡ m y
store-below [] m x y h = refl
store-below (b ∷ bs) m x y h = store-below bs (put b m x) (x + 1) y (omega arith) ∙ ground arith

pub store-above : (bs : List ℕ) (m : Memory) (x y : ℕ) → x + length bs ≤ y → store bs m x y ≡ m y
store-above [] m x y h = refl
store-above (b ∷ bs) m x y h = store-above bs (put b m x) (x + 1) y (omega arith) ∙ ground arith

pub load-same :
    (n : ℕ) (m m' : Memory) (x : ℕ)
    → ((y : ℕ) → x ≤ y → y < x + n → m' y ≡ m y)
    → load n m' x ≡ load n m x
load-same zero m m' x h = refl
load-same (suc n) m m' x h =
    let i = load-same n m m' (x + 1) (λ y a b. h y (omega arith) (omega arith)) in
    rw (h x (omega arith) (omega arith), i) refl

pub load-store : (bs : List ℕ) (m : Memory) (x : ℕ) → load (length bs) (store bs m x) x ≡ bs
load-store [] m x = refl
load-store (b ∷ bs) m x =
    let s = store-below bs (put b m x) (x + 1) x (omega arith) in
    rw (load-store bs (put b m x) (x + 1), s) (rw (==_refl x) refl)

pub store-zeros : (n : ℕ) (m : Memory) (x y : ℕ) → x ≤ y → y < x + n → store (zeros n) m x y ≡ 0
store-zeros zero m x y h g = absurd (omega (arith, h, g))
store-zeros (suc n) m x y h g = elim (Bool-cases (x == y)) [
  | inl e ↦ store-below (zeros n) (put 0 m x) (x + 1) y (ground (arith, e)) ∙ rw e refl
  | inr e ↦ store-zeros n (put 0 m x) (x + 1) y (ground (arith, e, h)) (omega (arith, g))
]
