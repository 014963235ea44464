-- ===== src/Tests/Selections.antt =====
-- A selection with a predicate on an integer, one on a text and one on a 64-bit integer.
use telldb.Base.{ℕ, ◌≡◌, ◌+◌, ◌*◌, ◌%◌, refl, List, [], ◌∷◌, length}
use telldb.Errors.{ok}
use telldb.Field.{normalint, bigint, text}
use telldb.ScanQuery.{Encoding, Selection, serialize_selection}
use telldb.ScanQuery.Size.{serialize_selection-size, all_wides}

abbrev plain : Encoding ℕ ℕ (List ℕ)
plain = record { float_bits = λ a. a; double_bits = λ a. a; string_bytes = λ s. s }

abbrev selection : Selection ℕ ℕ (List ℕ)
selection = record {
  conjuncts =
      (record { kind = 0; column = 1; field = normalint 7 }
        ∷ record { kind = 2; column = 4; field = text (104 ∷ 105 ∷ []) }
        ∷ [])
      ∷ (record { kind = 1; column = 1; field = bigint 9 } ∷ [])
      ∷ [];
  key_shift = 0;
  partition_key = 0;
  partition_value = 0;
}

abbrev sent : List ℕ
sent = elim (serialize_selection plain selection) [ ok x ↦ x.0 | _ ↦ [] ]

-- 72 bytes are reserved and 70 are written.
serialize_selection-size_example :
    72 ≡ (length sent + 2 * all_wides selection.conjuncts) % 4294967296
unfolding serialize_selection
serialize_selection-size_example = serialize_selection-size plain selection sent 72 refl
