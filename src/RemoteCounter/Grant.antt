-- ===== src/RemoteCounter/Grant.antt =====
-- `requestNewBatch` that stores its batch, and `incrementAndGet` that takes a key.
use telldb.Base.{
  ℕ, ◌+◌, ◌≤◌, ◌<◌, ◌≡◌, ◌≢◌, refl, subst, ◌∷◌, true, false, ◌==◌, arith, Bool-cases, inl, inr,
}
use telldb.RemoteCounter.{Counter, has_key, take_key, store_batch}
use telldb.RemoteCounter.System.{
  After, wait_for_key, return_key, Position, granted, go_on, update, System, version_of,
}
use telldb.RemoteCounter.Places.{
  current, following, carried, In, PositionFits, Inv, InBatch, Moved-Inv, All-imp,
}
use telldb.RemoteCounter.Exchange.{Exchange, exchanged, key_free}
use telldb.RemoteCounter.Places.{most_batches}

go_on-free : (a : After) (k : ℕ) → ¬ InBatch (go_on a) k
go_on-free wait_for_key k h = h
go_on-free (return_key n) k h = h

go_on-PositionFits : (a : After) → PositionFits (go_on a)
go_on-PositionFits wait_for_key = tt
go_on-PositionFits (return_key n) = tt

-- The counter after a batch is stored and after a key is taken, where no number wraps around.
pub store_full :
    (batch : ℕ) (c : Counter)
    → batch + 1000 < 18446744073709551616
    → c.counter == c.reserved ≡ true
    → store_batch batch c ≡ record c { counter = batch; reserved = batch + 1000 }
unfolding store_batch
store_full batch c h e = rw e (ground arith)

pub store_next :
    (batch : ℕ) (c : Counter)
    → c.counter == c.reserved ≡ false
    → store_batch batch c ≡ record c { next_counter = batch }
unfolding store_batch
store_next batch c e = rw e refl

pub take_full :
    (c : Counter)
    → c.next_counter + 1000 < 18446744073709551616
    → c.counter == c.reserved ≡ true
    → take_key c ≡ record c {
      counter = c.next_counter + 1;
      reserved = c.next_counter + 1000;
      next_counter = 0;
    }
unfolding take_key
take_full c h e = rw e (ground arith)

pub take_next :
    (c : Counter)
    → c.counter + 1 < 18446744073709551616
    → c.counter == c.reserved ≡ false
    → take_key c ≡ record c { counter = c.counter + 1 }
unfolding take_key
take_next c h e = rw e (ground arith)

module _ (s : System) (inv : Inv s) (small : version_of s.row ≤ most_batches) where
  module _ (f c batch : ℕ) (a : After) (at : s.fibers f ≡ granted batch a) where
    store-Exchange : Exchange s f c (store_batch batch (s.counters c)) (go_on a)
    store-Exchange =
        let b = inv.below (carried f) (batch + 1000) (rw at (ground arith)) in
        elim (Bool-cases ((s.counters c).counter == (s.counters c).reserved)) [
          | inl e ↦ rw (store_full batch (s.counters c) (omega (arith, b, small)) e) (record {
            from_current = carried f;
            from_following = following c;
            current_of = refl;
            following_of = refl;
            two = inl (λ o. cc);
            current_in = λ k l m. rw at (l, m);
            following_in = λ k n l m. (n, l, m);
            free = go_on-free a;
            fits = go_on-PositionFits a;
            counter_ordered = omega arith;
          })
          | inr e ↦ rw (store_next batch (s.counters c) e) (record {
            from_current = current c;
            from_following = carried f;
            current_of = refl;
            following_of = refl;
            two = inl (λ o. cc);
            current_in = λ k l m. (l, m);
            following_in = λ k n l m. rw at (l, m);
            free = go_on-free a;
            fits = go_on-PositionFits a;
            counter_ordered = inv.ordered c;
          })
        ]

    pub store-Inv : Inv (record s {
      counters = update s.counters c (store_batch batch (s.counters c));
      fibers = update s.fibers f (go_on a);
    })
    store-Inv =
        Moved-Inv s _ inv
          (exchanged s _ inv f c (store_batch batch (s.counters c)) (go_on a) store-Exchange refl
            refl refl)
          refl

  module _ (f c : ℕ) (has : has_key (s.counters c) ≡ true) (p : Position)
      (free : (k : ℕ) → ¬ InBatch p k) (fits : PositionFits p) where
    -- The key and the place it comes from.
    take-Exchange :
        (x : Exchange s f c (take_key (s.counters c)) p) × In s x.from_current
          (take_key (s.counters c)).counter
    unfolding has_key
    take-Exchange = elim (Bool-cases ((s.counters c).counter == (s.counters c).reserved)) [
      | inl e ↦
          let n : (s.counters c).next_counter ≢ 0 = ground arith in
          let b =
            inv.below (following c) ((s.counters c).next_counter + 1000)
              (n, omega arith, omega arith) in
          rw (take_full (s.counters c) (omega (arith, b, small)) e) (
            record {
              from_current = following c;
              from_following = following c;
              current_of = refl;
              following_of = refl;
              two = inr refl;
              current_in = λ k l m. (n, omega (arith, l), m);
              following_in = λ k z l m. absurd (z refl);
              free = free;
              fits = fits;
              counter_ordered = omega arith;
            },
            (n, omega arith, omega arith),
          )
      | inr e ↦
          let o = inv.ordered c in
          let l : (s.counters c).counter < (s.counters c).reserved = ground (arith, o, e) in
          let b = inv.below (current c) (s.counters c).reserved (l, omega arith) in
          rw (take_next (s.counters c) (omega (arith, b, l, small)) e) (
            record {
              from_current = current c;
              from_following = following c;
              current_of = refl;
              following_of = refl;
              two = inl (λ o. cc);
              current_in = λ k l m. (omega (arith, l), m);
              following_in = λ k z l m. (z, l, m);
              free = free;
              fits = fits;
              counter_ordered = omega (arith, l);
            },
            (omega arith, omega (arith, l)),
          )
    ]

    pub take-Inv : Inv (record s {
      counters = update s.counters c (take_key (s.counters c));
      fibers = update s.fibers f p;
      issued = (take_key (s.counters c)).counter ∷ s.issued;
    })
    take-Inv =
        let (x, h) = take-Exchange in
        let t : System = record s {
          counters = update s.counters c (take_key (s.counters c));
          fibers = update s.fibers f p;
        } in
        let i =
          Moved-Inv s t inv (exchanged s t inv f c (take_key (s.counters c)) p x refl refl refl)
            refl in
        record {
          row_fits = i.row_fits;
          position_fits = i.position_fits;
          ordered = i.ordered;
          below = i.below;
          apart = i.apart;
          issued_below =
              (inv.below x.from_current (take_key (s.counters c)).counter h, inv.issued_below);
          issued_apart =
              (key_free s t inv f c (take_key (s.counters c)) p x refl refl refl h, i.issued_apart);
          different = (
            All-imp s.issued (λ j n e. n x.from_current (subst (In s x.from_current) e h))
                inv.issued_apart,
            inv.different,
          );
        }
