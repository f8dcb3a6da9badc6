-- ===== src/Dlq/File/Entries.antt =====
-- What Enqueue and Remove do to the list of entries, seen by id.
use tekton_events_relay.Prelude.{
  ℕ, ◌+◌, ◌≤◌, String, Option, none, some, List, [], ◌∷◌, ◌≡◌, refl, arith, ◌==◌, eq_iff,
  if◌then◌else◌,
}
use tekton_events_relay.Dlq.{DeadEvent}
use tekton_events_relay.Dlq.File.{upsert, remove_id}

-- The first entry of an id, and the number of them.
abbrev pub entry_of : String → List DeadEvent → Option DeadEvent
entry_of id [] = none
entry_of id (e ∷ es) = if e.id == id then some e else entry_of id es

abbrev pub count_id : String → List DeadEvent → ℕ
count_id id [] = 0
count_id id (e ∷ es) = let rest = count_id id es in if e.id == id then rest + 1 else rest

-- No id twice.
pub record IsKeyed (es : List DeadEvent) : Type 0 where
  pub once : (id : String) → count_id id es ≤ 1

abbrev pub bumped : DeadEvent → Option DeadEvent → DeadEvent
bumped e none = e
bumped e (some old) = record e { retry_count = old.retry_count + 1 }

-- After Enqueue's change of the entries, the entry of the event's id is the new one, with the
-- retry count of the old one and one more if there was one, and the entry of every other id is as
-- it was.
pub entry_of-upsert :
    (j : String) (e : DeadEvent) (es : List DeadEvent)
    → entry_of j (upsert e es)
      ≡ (if e.id == j then some (bumped e (entry_of e.id es)) else entry_of j es)
unfolding upsert
entry_of-upsert j e [] = refl
entry_of-upsert j e (x ∷ es) =
    ground (arith, eq_iff x.id e.id, eq_iff x.id j, eq_iff e.id j, entry_of-upsert j e es)

pub count_id-upsert :
    (j : String) (e : DeadEvent) (es : List DeadEvent)
    → count_id j (upsert e es) ≡ (
        if e.id == j
        then (elim (entry_of j es) [ none ↦ 1 | some x ↦ count_id j es ])
        else count_id j es)
unfolding upsert
count_id-upsert j e [] = refl
count_id-upsert j e (x ∷ es) =
    ground (arith, eq_iff x.id e.id, eq_iff x.id j, eq_iff e.id j, count_id-upsert j e es)

pub entry_of-remove_id :
    (j id : String) (es : List DeadEvent)
    → entry_of j (remove_id id es) ≡ (if id == j then none else entry_of j es)
entry_of-remove_id j id [] = ground arith
entry_of-remove_id j id (x ∷ es) =
    ground (arith, eq_iff x.id id, eq_iff x.id j, eq_iff id j, entry_of-remove_id j id es)

count_id-remove_id-le :
    (j id : String) (es : List DeadEvent) → count_id j (remove_id id es) ≤ count_id j es
count_id-remove_id-le j id [] = omega arith
count_id-remove_id-le j id (x ∷ es) = ground (arith, count_id-remove_id-le j id es)

-- Enqueue's change of the entries keeps the ids distinct.
pub upsert-IsKeyed : (e : DeadEvent) (es : List DeadEvent) → IsKeyed es → IsKeyed (upsert e es)
upsert-IsKeyed e es k = record { once = λ j. ground (arith, count_id-upsert j e es, k.once j) }

pub remove_id-IsKeyed : (id : String) (es : List DeadEvent) → IsKeyed es → IsKeyed (remove_id id es)
remove_id-IsKeyed id es k = record {
  once = λ j. omega (arith, count_id-remove_id-le j id es, k.once j);
}
