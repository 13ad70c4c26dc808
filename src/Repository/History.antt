-- ===== src/Repository/History.antt =====
-- The audit history of app/db/device_repository.py under `_record_history`: its limit, what it
-- drops, and whom it leaves alone.
use mathlib.Core.List.{append-nil}
use ot_asset_discovery.Repository.{
  max_history, Field, HistoryRow, history_count, oldest, delete_at, delete_oldest, delete_oldest_n,
  enforce_history_limit, record_history,
}
use ot_asset_discovery.Prelude.{
  ℕ, zero, suc, ◌+◌, ◌-◌, ◌≤◌, min, ◌≡◌, refl, ◌∙◌, inl, inr, false, Option, none, some, List, [],
  ◌∷◌, ◌++◌, arith, ltb, nat_eq, Bool-cases, Option-cases, length, keep_if, Text,
}

-- The rows of one device.
abbrev pub rows_of : ℕ → List HistoryRow → List HistoryRow
rows_of id rows = keep_if (λ h. nat_eq h.device_id id) rows

count-delete_at :
    (id t : ℕ) (rows : List HistoryRow)
    → history_count id (delete_at id t rows) ≤ history_count id rows
unfolding delete_at
count-delete_at id t [] = omega arith
count-delete_at id t (h ∷ rows) = ground (arith, count-delete_at id t rows)

-- With `oldest` at that time, exactly one row goes.
count-delete_oldest_at :
    (id t : ℕ) (rows : List HistoryRow)
    → oldest id rows ≡ some t
    → history_count id (delete_at id t rows) + 1 ≡ history_count id rows
unfolding delete_at oldest
count-delete_oldest_at id t [] h = cc
count-delete_oldest_at id t (r ∷ rows) h = ground (arith, count-delete_oldest_at id t rows)

oldest-none : (id : ℕ) (rows : List HistoryRow) → oldest id rows ≡ none → history_count id rows ≡ 0
unfolding oldest
oldest-none id [] h = refl
oldest-none id (r ∷ rows) h = ground (arith, oldest-none id rows)

-- The rows of other devices stay.
rows_of-delete_at :
    (id j t : ℕ) (rows : List HistoryRow)
    → nat_eq j id ≡ false
    → rows_of j (delete_at id t rows) ≡ rows_of j rows
unfolding delete_at
rows_of-delete_at id j t [] h = refl
rows_of-delete_at id j t (r ∷ rows) h = ground (arith, rows_of-delete_at id j t rows)

count-delete_oldest :
    (id : ℕ) (rows : List HistoryRow)
    → history_count id (delete_oldest id rows) ≡ history_count id rows - 1
unfolding delete_oldest
count-delete_oldest id rows = elim (Option-cases (oldest id rows)) [
  | inl e ↦ rw e (omega (arith, oldest-none id rows e))
  | inr (t, e) ↦ rw e (omega (arith, count-delete_oldest_at id t rows e))
]

count-delete_oldest_n :
    (n id : ℕ) (rows : List HistoryRow)
    → history_count id (delete_oldest_n n id rows) ≡ history_count id rows - n
unfolding delete_oldest_n
count-delete_oldest_n zero id rows = omega arith
count-delete_oldest_n (suc n) id rows =
    omega (arith, count-delete_oldest_n n id (delete_oldest id rows), count-delete_oldest id rows)

rows_of-delete_oldest_n :
    (n id j : ℕ) (rows : List HistoryRow)
    → nat_eq j id ≡ false
    → rows_of j (delete_oldest_n n id rows) ≡ rows_of j rows
unfolding delete_oldest_n delete_oldest
rows_of-delete_oldest_n zero id j rows h = refl
rows_of-delete_oldest_n (suc n) id j rows h = elim (Option-cases (oldest id rows)) [
  | inl e ↦ rw e (rows_of-delete_oldest_n n id j rows h)
  | inr (t, e) ↦
      rw e
        (rows_of-delete_oldest_n n id j (delete_at id t rows) h ∙ rows_of-delete_at id j t rows h)
]

history_count-append :
    (id : ℕ) (rows more : List HistoryRow)
    → history_count id (rows ++ more) ≡ history_count id rows + history_count id more
history_count-append id [] more = omega arith
history_count-append id (r ∷ rows) more = omega (arith, history_count-append id rows more)

rows_of-append :
    (id : ℕ) (rows more : List HistoryRow)
    → rows_of id (rows ++ more) ≡ rows_of id rows ++ rows_of id more
rows_of-append id [] more = refl
rows_of-append id (r ∷ rows) more = ground (arith, rows_of-append id rows more)

pub history_count-eq :
    (id : ℕ) (rows : List HistoryRow) → history_count id rows ≡ length (rows_of id rows)
history_count-eq id [] = refl
history_count-eq id (r ∷ rows) = ground (arith, history_count-eq id rows)

rows_of-added :
    (id j : ℕ) (rows : List HistoryRow) (field : Field) (old new : Option Text) (now : ℕ)
    → nat_eq j id ≡ false
    → rows_of j (
        rows
        ++ record {
          device_id = id;
          field_name = field;
          old_value = old;
          new_value = new;
          changed_at = now;
        }
          ∷ [])
      ≡ rows_of j rows
rows_of-added id j rows field old new now h =
    rw (rows_of-append j rows) (ground (arith, append-nil (rows_of j rows)))

pub record_history_rows :
    (id : ℕ) (field : Field) (old new : Option Text) (now : ℕ) (rows : List HistoryRow) (j : ℕ)
    → (history_count id (record_history id field old new now rows)
        ≡ min max_history (history_count id rows + 1))
      × (nat_eq j id ≡ false
          → rows_of j (record_history id field old new now rows) ≡ rows_of j rows)
unfolding record_history enforce_history_limit
record_history_rows id field old new now rows j =
    let added : List HistoryRow =
      rows
      ++ record {
        device_id = id;
        field_name = field;
        old_value = old;
        new_value = new;
        changed_at = now;
      }
        ∷ [] in
    (
      ground (
        arith,
        count-delete_oldest_n (history_count id added - 1000) id added,
        history_count-append id rows (
            record {
              device_id = id;
              field_name = field;
              old_value = old;
              new_value = new;
              changed_at = now;
            }
            ∷ []),
      ),
      λ h. elim (Bool-cases (ltb max_history (history_count id added))) [
        | inl e ↦ rw e (
            rows_of-delete_oldest_n (history_count id added - 1000) id j added h
            ∙ rows_of-added id j rows field old new now h)
        | inr e ↦ rw e (rows_of-added id j rows field old new now h)
      ],
    )

-- Recording a change leaves the device with one row more, up to 1000, whatever it had before,
-- and the rows of every other device as they were.
pub record_history_lem :
    (id : ℕ) (field : Field) (old new : Option Text) (now : ℕ) (rows : List HistoryRow) (j : ℕ)
    → nat_eq j id ≡ false
    → (history_count id (record_history id field old new now rows)
        ≡ min max_history (history_count id rows + 1))
      × (rows_of j (record_history id field old new now rows) ≡ rows_of j rows)
record_history_lem id field old new now rows j other =
    let r = record_history_rows id field old new now rows j in (r.0, r.1 other)
