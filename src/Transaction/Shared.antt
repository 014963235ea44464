-- ===== src/Transaction/Shared.antt =====
-- All transactions of a context have the same counter for a name (src/Transaction.cpp).
use Prim.Native.String.{String}
use text.Mathlib.TextPositions.{compare_refl}
use telldb.Base.{
  ℕ, ◌≤◌, ◌≡◌, ◌≢◌, List, [], ◌∷◌, Option, none, some, true, lookup, erase, arith, Option-cases,
  inl, inr,
}
use telldb.Errors.{Result, ok, err, Outcome, done, raise, out_of_range}
use telldb.Index.Registry.{IndexDescriptor, Response, same_name, find_name, emplace_name}
use telldb.Transaction.Tables.{Context}
use telldb.Transaction.Known.{find_name-emplace_name}
use telldb.Transaction.Counters.{
  Counters, global_counter_name, open_now, share, get_counter, create_counter,
}

same_name_refl : (k : String) → same_name k k ≡ true
same_name_refl k = ground (arith, compare_refl k)

module _ {V : Type 0} where
  find_name-emplaced :
      (k : String) (v : V) (m : List (String × V))
      → find_name k m ≡ none
      → find_name k (emplace_name k v m) ≡ some v
  find_name-emplaced k v [] h = ground (arith, same_name_refl k)
  find_name-emplaced k v ((j, w) ∷ m) h = ground (arith, find_name-emplaced k v m)

  find_name-kept :
      (j k : String) (v x : V) (m : List (String × V))
      → find_name j m ≡ some x
      → find_name j (emplace_name k v m) ≡ some x
  find_name-kept j k v x [] h = absurd (ground arith)
  find_name-kept j k v x ((i, w) ∷ m) h = ground (arith, find_name-kept j k v x m)

module _ {T : Type 0} (table_id : T → ℕ) (table_name : T → String)
    (indexes_of : T → List (String × IndexDescriptor)) where
  -- Every counter that a name has is alive, and new memory is free.
  pub record IsSound (s : Counters table_id table_name indexes_of) : Type 0 where
    pub alive :
        (name : String) (p : ℕ) → find_name name s.counters ≡ some p → lookup p s.objects ≢ none
    pub fresh : (p : ℕ) → s.next ≤ p → lookup p s.objects ≡ none

  -- What a name has, it keeps.
  abbrev pub Keeps :
      Counters table_id table_name indexes_of → Counters table_id table_name indexes_of → Type 0
  Keeps s x =
      (name : String) (p : ℕ)
      → find_name name s.counters ≡ some p
      → find_name name x.counters ≡ some p

  -- A call leaves the counters sound, keeps them, and returns the counter of its name.
  abbrev pub Shares :
      String
      → Counters table_id table_name indexes_of
      → Outcome (Counters table_id table_name indexes_of) ℕ
      → Type 0
  Shares name s (raise x e) = IsSound x × Keeps s x
  Shares name s (done x p) = IsSound x × Keeps s x × (find_name name x.counters ≡ some p)

  share-Shares :
      (name : String) (t : T) (s : Counters table_id table_name indexes_of)
      → IsSound s
      → Shares name s (share table_id table_name indexes_of name t s)
  unfolding share lookup erase
  share-Shares name t s h = elim (Option-cases (find_name name s.counters)) [
    | inl e ↦
        rw (e, share)
          (
            record {
              alive = λ n p f. elim (find_name-emplace_name n name s.next p s.counters f) [
                | inl o ↦ ground (arith, h.alive n p o)
                | inr same ↦ ground (arith, same)
              ];
              fresh = λ p le. ground (arith, h.fresh p);
            },
            (λ n p f. find_name-kept n name s.next p s.counters f),
            find_name-emplaced name s.next s.counters e,
          )
    | inr (p, e) ↦
        rw (e, share)
          (
            record {
              alive = λ n q f. ground (arith, h.alive n q f);
              fresh = λ q le. ground (arith, h.fresh q);
            },
            (λ n q f. f),
            e,
          )
  ]

  with_context :
      (c : Context table_id table_name indexes_of) (s : Counters table_id table_name indexes_of)
      → IsSound s
      → IsSound (record s { context = c })
  with_context c s h = record { alive = h.alive; fresh = h.fresh }

  Shares-weaken :
      (name : String) (s x : Counters table_id table_name indexes_of)
      (o : Outcome (Counters table_id table_name indexes_of) ℕ)
      → Keeps s x
      → Shares name x o
      → Shares name s o
  Shares-weaken name s x (raise y e) k (h, m) = (h, λ n p f. m n p (k n p f))
  Shares-weaken name s x (done y p) k (h, m, f) = (h, (λ n q g. m n q (k n q g)), f)

  module _
      (meanwhile : Counters table_id table_name indexes_of
        → Counters table_id table_name indexes_of)
      (sound : (s : Counters table_id table_name indexes_of) → IsSound s → IsSound (meanwhile s))
      (keeps : (s : Counters table_id table_name indexes_of) → Keeps s (meanwhile s)) where
    new-Shares :
        (answers : String → Response T) (response : Result T) (name : String)
        (s : Counters table_id table_name indexes_of)
        → IsSound s
        → find_name name s.counters ≡ none
        → Shares name s
            (get_counter table_id table_name indexes_of answers response meanwhile name s)
    unfolding get_counter
    new-Shares answers response name s h e =
        rw (e, get_counter)
          (go (
            open_now table_id table_name indexes_of answers response (global_counter_name name)
              s.context))
      where
        shared :
            (w : Counters table_id table_name indexes_of) (o : Option T)
            → IsSound w
            → Keeps s w
            → Shares name s (elim o [
              | none ↦ raise w out_of_range
              | some t ↦ share table_id table_name indexes_of name t w
            ])
        shared w none g k = (g, k)
        shared w (some t) g k =
            Shares-weaken name s w (share table_id table_name indexes_of name t w) k
              (share-Shares name t w g)

        go :
            (o : Outcome (Context table_id table_name indexes_of) ℕ)
            → Shares name s (elim o [
              | raise c e ↦ raise (meanwhile (record s { context = c })) e
              | done c id ↦
                  let w = meanwhile (record s { context = c }) in
                  elim (lookup id w.context.tables) [
                    | none ↦ raise w out_of_range
                    | some t ↦ share table_id table_name indexes_of name t w
                  ]
            ])
        go (raise c e) = (
          sound (record s { context = c }) (with_context c s h),
          keeps (record s { context = c }),
        )
        go (done c id) =
            shared (meanwhile (record s { context = c }))
              (lookup id (meanwhile (record s { context = c })).context.tables)
              (sound (record s { context = c }) (with_context c s h))
              (keeps (record s { context = c }))

    get_counter-Shares :
        (answers : String → Response T) (response : Result T) (name : String)
        (s : Counters table_id table_name indexes_of)
        → IsSound s
        → Shares name s
            (get_counter table_id table_name indexes_of answers response meanwhile name s)
    unfolding get_counter
    get_counter-Shares answers response name s h = elim (Option-cases (find_name name s.counters)) [
      | inl e ↦ new-Shares answers response name s h e
      | inr (p, e) ↦ rw (e, get_counter) (h, (λ n q f. f), e)
    ]

    -- Where the counters of a context are sound and other fibers keep them so and take no counter
    -- from its name, `getCounter` and `createCounter` do too, also where they throw; and the counter
    -- that they return is the one that its name has from then on, so that all transactions of the
    -- context have the same, although a fiber waits for the table between its look-ups.
    pub counters-Shares :
        (created : Result T) (answers : String → Response T) (response : Result T) (name : String)
        (s : Counters table_id table_name indexes_of)
        → IsSound s
        → Shares name s
            (get_counter table_id table_name indexes_of answers response meanwhile name s)
          × Shares name s (
              create_counter table_id table_name indexes_of created answers response meanwhile name
                s)
    unfolding create_counter
    counters-Shares (ok t) answers response name s h =
        (get_counter-Shares answers response name s h, get_counter-Shares answers response name s h)
    counters-Shares (err e) answers response name s h =
        (get_counter-Shares answers response name s h, (h, λ n q f. f))
