-- ===== src/Scheduler/Rows.antt =====
-- The table of schedules as a map, and the flags in it (internal/scheduler/repository.go).
use kariz.Prelude.{
  ℕ, ◌≡◌, refl, String, Bool, Option, none, some, List, [], ◌∷◌, map, arith, eq_iff, ◌=ₛ◌,
  if◌then◌else◌,
}
use kariz.Models.Schedule.{Schedule}
use kariz.Database.Keeps.{Keeps, Keeps-statement}
use kariz.Scheduler.Repository.{
  Table, find, modify, updated_row, update, retimed_row, update_next_run_at, get_by_id,
  get_due_schedules,
}

abbrev pub map_row : (Schedule → Schedule) → Option Schedule → Option Schedule
map_row f none = none
map_row f (some r) = some (f r)

-- A change of the row `id` that keeps its key is seen under `id`, and under no other key.
pub find-modify :
    (j id : String) (f : Schedule → Schedule) (rows : Table)
    → ((r : Schedule) → (f r).id ≡ r.id)
    → find j (modify id f rows) ≡ (if id =ₛ j then map_row f (find j rows) else find j rows)
unfolding find modify
find-modify j id f [] key = ground arith
find-modify j id f (r ∷ rows) key =
    ground (arith, key r, find-modify j id f rows key, eq_iff r.id id, eq_iff r.id j, eq_iff id j)

-- The rows' keys with their `is_enabled`.
abbrev pub flags : Table → List (String × Bool)
flags = map (λ r. (r.id, r.is_enabled))

flags-modify :
    (id : String) (f : Schedule → Schedule) (rows : Table)
    → ((r : Schedule) → (f r).id ≡ r.id)
    → ((r : Schedule) → (f r).is_enabled ≡ r.is_enabled)
    → flags (modify id f rows) ≡ flags rows
unfolding modify
flags-modify id f [] key flag = refl
flags-modify id f (r ∷ rows) key flag =
    ground (arith, key r, flag r, flags-modify id f rows key flag)

abbrev pub HasFlags : List (String × Bool) → Table → Type 0
HasFlags fs rows = flags rows ≡ fs

module _ (fs : List (String × Bool)) where
  pub update-HasFlags : (s : Schedule) → Keeps (HasFlags fs) (update s)
  unfolding update
  update-HasFlags s =
      Keeps-statement _ _
        λ now rows h. ground (arith, flags-modify s.id (updated_row s) rows (λ r. refl) (λ r. refl))

  pub update_next_run_at-HasFlags :
      (id : String) (next last : Option ℕ) → Keeps (HasFlags fs) (update_next_run_at id next last)
  unfolding update_next_run_at
  update_next_run_at-HasFlags id next last = Keeps-statement _ _ λ now rows h.
      ground (arith, flags-modify id (retimed_row next last now) rows (λ r. refl) (λ r. refl))

  pub get_by_id-HasFlags : (id : String) → Keeps (HasFlags fs) (get_by_id id)
  unfolding get_by_id
  get_by_id-HasFlags id = Keeps-statement _ _ λ now rows h. h

  pub get_due_schedules-HasFlags : Keeps (HasFlags fs) get_due_schedules
  unfolding get_due_schedules
  get_due_schedules-HasFlags = Keeps-statement _ _ λ now rows h. h
