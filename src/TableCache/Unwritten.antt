-- ===== src/TableCache/Unwritten.antt =====
-- Changes that are not written to storage yet (src/TableCache.cpp), and the steps that leave them alone.
use telldb.Base.{
  ℕ, ◌≡◌, refl, sym, subst, ◌∙◌, List, [], ◌∷◌, Option, none, some, false, lookup, emplace, assign,
  erase, All, Distinct, emplace-Distinct, assign-Distinct, erase-Distinct, arith, Option-cases, inl,
  inr, ◌==◌, Bool-cases,
}
use telldb.Errors.{Outcome, done, raise, Method, ◌>>=◌, after}
use telldb.Index.{IndexWrapper}
use telldb.TableCache.State.{Change, World}
use telldb.TableCache.Memory.{deref, new_tuple, delete_tuple}
use telldb.TableCache.Ops.{for_indexes, put_indexes, each_index, check_newest}

module _ {V : Type 0} (P : V → Type 0) where
  abbrev pub AllValues : List (ℕ × V) → Type 0
  AllValues m = All (λ a. P a.1) m

  pub lookup-All : (k : ℕ) (v : V) (m : List (ℕ × V)) → AllValues m → lookup k m ≡ some v → P v
  unfolding lookup
  lookup-All k v [] a h = absurd (ground arith)
  lookup-All k v ((j, w) ∷ m) a h = elim (Bool-cases (j == k)) [
    | inl e ↦ let same : w ≡ v = ground arith in subst P same a.0
    | inr e ↦ lookup-All k v m a.1 (ground arith)
  ]

  pub All-emplace :
      (k : ℕ) (v : V) (m : List (ℕ × V)) → AllValues m → P v → AllValues (emplace k v m)
  unfolding emplace
  All-emplace k v [] a p = (p, tt)
  All-emplace k v ((j, w) ∷ m) a p = elim (Bool-cases (j == k)) [
    | inl e ↦ rw (e, emplace) a
    | inr e ↦ rw (e, emplace) (a.0, All-emplace k v m a.1 p)
  ]

  pub All-assign : (k : ℕ) (v : V) (m : List (ℕ × V)) → AllValues m → P v → AllValues (assign k v m)
  unfolding assign
  All-assign k v [] a p = tt
  All-assign k v ((j, w) ∷ m) a p = elim (Bool-cases (j == k)) [
    | inl e ↦ rw (e, assign) (p, a.1)
    | inr e ↦ rw (e, assign) (a.0, All-assign k v m a.1 p)
  ]

  All-erase : (k : ℕ) (m : List (ℕ × V)) → AllValues m → AllValues (erase k m)
  unfolding erase
  All-erase k [] a = tt
  All-erase k ((j, w) ∷ m) a = elim (Bool-cases (j == k)) [
    | inl e ↦ rw (e, erase) (a.1)
    | inr e ↦ rw (e, erase) (a.0, All-erase k m a.1)
  ]

-- No key has two changes, and none is written.
abbrev pub Unwritten : List (ℕ × Change) → Type 0
Unwritten cs = All (λ a. a.1.written ≡ false) cs × Distinct cs

abbrev IsFresh : Change → Type 0
IsFresh c = c.written ≡ false

pub emplace-Unwritten :
    (k : ℕ) (c : Change) (cs : List (ℕ × Change))
    → lookup k cs ≡ none
    → c.written ≡ false
    → Unwritten cs
    → Unwritten (emplace k c cs)
emplace-Unwritten k c cs l h u = (All-emplace IsFresh k c cs u.0 h, emplace-Distinct k c cs l u.1)

pub assign-Unwritten :
    (k : ℕ) (c : Change) (cs : List (ℕ × Change))
    → c.written ≡ false
    → Unwritten cs
    → Unwritten (assign k c cs)
assign-Unwritten k c cs h u = (All-assign IsFresh k c cs u.0 h, assign-Distinct k c cs u.1)

pub erase-Unwritten : (k : ℕ) (cs : List (ℕ × Change)) → Unwritten cs → Unwritten (erase k cs)
erase-Unwritten k cs u = (All-erase IsFresh k cs u.0, erase-Distinct k cs u.1)

pub lookup-Unwritten :
    (k : ℕ) (c : Change) (cs : List (ℕ × Change))
    → Unwritten cs
    → lookup k cs ≡ some c
    → c.written ≡ false
lookup-Unwritten k c cs u l = lookup-All IsFresh k c cs u.0 l

module _ {T K B : Type 0} where
  -- A call that leaves changes alone, and one that leaves none written.
  abbrev pub Still : {A : Type 0} → Method (World T K B) A → Type 0
  Still m = (w : World T K B) → (after (m w)).table.changes ≡ w.table.changes

  abbrev pub LeavesUnwritten : {A : Type 0} → Method (World T K B) A → World T K B → Type 0
  LeavesUnwritten m w = Unwritten w.table.changes → Unwritten (after (m w)).table.changes

  pub Still-bind :
      {A C : Type 0} (m : Method (World T K B) A) (f : A → Method (World T K B) C)
      → Still m
      → ((a : A) → Still (f a))
      → Still (m >>= f)
  Still-bind {A = A} {C = C} m f p q w = go (m w) (p w)
    where
      go :
          (o : Outcome (World T K B) A)
          → (after o).table.changes ≡ w.table.changes
          → (after (elim o as (λ _. Outcome (World T K B) C) [
            | done s a ↦ f a s
            | raise s e ↦ raise s e
          ])).table.changes
            ≡ w.table.changes
      go (done s a) h = q a s ∙ h
      go (raise s e) h = h

  -- The second call sees the changes that the first has left alone.
  pub bind-LeavesUnwritten :
      {A C : Type 0} (m : Method (World T K B) A) (f : A → Method (World T K B) C) (w : World T K B)
      → Still m
      → ((a : A) (v : World T K B) → v.table.changes ≡ w.table.changes → LeavesUnwritten (f a) v)
      → LeavesUnwritten (m >>= f) w
  bind-LeavesUnwritten {A = A} {C = C} m f w p q u = go (m w) (p w)
    where
      go :
          (o : Outcome (World T K B) A)
          → (after o).table.changes ≡ w.table.changes
          → Unwritten
              (after (elim o as (λ _. Outcome (World T K B) C) [
                | done s a ↦ f a s
                | raise s e ↦ raise s e
              ])).table.changes
      go (done s a) h = q a s h (subst Unwritten (sym h) u)
      go (raise s e) h = subst Unwritten (sym h) u

  pub then_Still :
      {A C : Type 0} (m : Method (World T K B) A) (f : A → Method (World T K B) C) (w : World T K B)
      → LeavesUnwritten m w
      → ((a : A) → Still (f a))
      → LeavesUnwritten (m >>= f) w
  then_Still {A = A} {C = C} m f w p q u = go (m w) (p u)
    where
      go :
          (o : Outcome (World T K B) A)
          → Unwritten (after o).table.changes
          → Unwritten
              (after (elim o as (λ _. Outcome (World T K B) C) [
                | done s a ↦ f a s
                | raise s e ↦ raise s e
              ])).table.changes
      go (done s a) h = subst Unwritten (sym (q a s)) h
      go (raise s e) h = h

  pub deref-Still : (p : ℕ) → Still (deref {T = T} {K = K} {B = B} p)
  unfolding deref
  deref-Still p w = elim (Option-cases (w.heap.cell p)) [
    | inl e ↦ rw (e, deref) refl
    | inr (t, e) ↦ rw (e, deref) refl
  ]

  pub new_tuple-Still : (p : ℕ) → Still (new_tuple {T = T} {K = K} {B = B} p)
  unfolding new_tuple
  new_tuple-Still p = Still-bind (deref p) _ (deref-Still p) (λ t w. refl)

  pub delete_tuple-Still : (o : Option ℕ) → Still (delete_tuple {T = T} {K = K} {B = B} o)
  unfolding delete_tuple
  delete_tuple-Still none w = refl
  delete_tuple-Still (some p) w = elim (Option-cases (w.heap.cell p)) [
    | inl e ↦ rw (e, delete_tuple) refl
    | inr (t, e) ↦ rw (e, delete_tuple) refl
  ]

  pub check_newest-Still : (k : ℕ) → Still (check_newest {T = T} {K = K} {B = B} k)
  unfolding check_newest
  check_newest-Still k w = elim (Option-cases (lookup k w.table.cache)) [
    | inl e ↦ rw (e, check_newest) refl
    | inr (c, e) ↦ elim (Bool-cases c.1) [
      | inl b ↦ rw (e, b, check_newest) refl
      | inr b ↦ rw (e, b, check_newest) refl
    ]
  ]

  put_indexes-Still :
      (w : World T K B) (o : Outcome (List (IndexWrapper T K B)) (Unit {0}))
      → (after (put_indexes w o)).table.changes ≡ w.table.changes
  put_indexes-Still w (done is u) = refl
  put_indexes-Still w (raise is e) = refl

  pub each_index-Still :
      {A : Type 0} (read : Method (World T K B) A) (f : A → Method (IndexWrapper T K B) (Unit {0}))
      → Still (each_index read f)
  unfolding each_index
  each_index-Still read f w = put_indexes-Still w (for_indexes read f w w.table.indexes)
