-- ===== src/Executor/Cancel.antt =====
-- `CancelExecution` of internal/executor/service.go.
use kariz.Prelude.{
  ℕ, ◌≡◌, ◌≢◌, ◌⊎◌, refl, ap, ◌∙◌, String, Bool, true, false, Option, none, some, List, ◌∷◌, arith,
  eq_iff, inl, inr, Bool-cases, Option-cases, ◌=ₛ◌, if◌then◌else◌,
}
use kariz.Models.Errors.{Error}
use kariz.Models.Execution.{ExecutionRecord, cancelled}
use kariz.Database.{ok, err, World, ◌>>=◌, elapse}
use kariz.Database.Calm.{AreCalm, statement-calm, later_of-calm}
use kariz.Database.Rows.{find, key-find, modify, find-modify}
use kariz.Executor.Requests.{
  State, key, get_record, update_record, updated, is_open, cancel_open, cancel_found,
  cancel_execution, execution_not_found, cannot_cancel, stop_owned, cancel_tracked, stop_run,
  signal,
}

abbrev pub with_records : World State → List ExecutionRecord → World State
with_records w rows = record w { tables = record w.tables { records = rows } }

get_record-calm :
    (id : String) (w : World State)
    → AreCalm w.latencies
    → get_record id w ≡ (ok (find key id w.tables.records), elapse w)
unfolding get_record
get_record-calm id w h = rw (statement-calm _ _ w h)

pub update_record-calm :
    (r row : ExecutionRecord) (w : World State)
    → AreCalm w.latencies
    → find key r.id w.tables.records ≡ some row
    → update_record r w
      ≡ (ok tt, with_records (elapse w) (modify key r.id (updated r) w.tables.records))
unfolding update_record
update_record-calm r row w h there = rw (statement-calm _ _ w h, there)

pub find-updated :
    (j : String) (r row : ExecutionRecord) (rows : List ExecutionRecord)
    → find key r.id rows ≡ some row
    → find key j (modify key r.id (updated r) rows)
      ≡ (if r.id =ₛ j then some (updated r row) else find key j rows)
find-updated j r row rows h =
    ground (arith, find-modify key j r.id (updated r) rows (λ s. refl), eq_iff r.id j)

-- The time at which a container that the run created is stopped.
abbrev pub after_stop : Option String → World State → World State
after_stop none w = w
after_stop (some container) w = elapse w

-- Stopping what a run works on does not change the table, and takes its time.
abbrev Beside : World State → World State → Type 0
Beside w w' =
    (w'.tables.records ≡ w.tables.records) × (w'.latencies ≡ w.latencies) × (w'.clock ≡ w.clock)

stop_owned-Beside :
    (o : Option String) (w : World State) → Beside (after_stop o w) (stop_owned o w).1
stop_owned-Beside none w = (refl, refl, refl)
stop_owned-Beside (some container) w = (refl, refl, refl)

cancel_tracked-Beside :
    (b : Bool) (id : String) (w w' : World State)
    → Beside w w'
    → Beside w (cancel_tracked b id w').1
cancel_tracked-Beside true id w w' h = h
cancel_tracked-Beside false id w w' h = h

abbrev stopped : String → World State → World State
stopped id w = (stop_run id w).1

abbrev pub ready : String → World State → World State
ready id w = after_stop (w.tables.owned id) w

stopped-Beside : (id : String) (w : World State) → Beside (ready id w) (stopped id w)
stopped-Beside id w =
    let w₁ = (stop_owned (w.tables.owned id) w).1 in
    cancel_tracked-Beside (w₁.tables.tracked id) id (ready id w) w₁
      (stop_owned-Beside (w.tables.owned id) w)

after_stop-calm :
    (o : Option String) (w : World State) → AreCalm w.latencies → AreCalm (after_stop o w).latencies
after_stop-calm none w h = h
after_stop-calm (some container) w h = later_of-calm w.latencies h

after_stop-records :
    (o : Option String) (w : World State) → (after_stop o w).tables.records ≡ w.tables.records
after_stop-records none w = refl
after_stop-records (some container) w = refl

stop_run-ok : (id : String) (w : World State) → stop_run id w ≡ (ok tt, stopped id w)
stop_run-ok id w =
    let w₁ = (stop_owned (w.tables.owned id) w).1 in tracked_ok (w₁.tables.tracked id) w₁
  where
    tracked_ok :
        (b : Bool) (w₁ : World State) → cancel_tracked b id w₁ ≡ (ok tt, (cancel_tracked b id w₁).1)
    tracked_ok true w₁ = refl
    tracked_ok false w₁ = refl

-- Once the run is stopped, its context is cancelled, if it is tracked.
abbrev pub EndsContext : String → World State → World State → Type 0
EndsContext id w w' = w.tables.tracked id ≡ true → w'.tables.canceled ≡ id ∷ w.tables.canceled

stopped-EndsContext : (id : String) (w : World State) → EndsContext id w (stopped id w)
stopped-EndsContext id w tracked = cancels_owned (w.tables.owned id)
  where
    cancels_owned :
        (o : Option String)
        → let w₁ = (stop_owned o w).1 in
          (cancel_tracked (w₁.tables.tracked id) id w₁).1.tables.canceled ≡ id ∷ w.tables.canceled
    cancels_owned none = rw tracked refl
    cancels_owned (some container) = rw tracked refl

signal-ok :
    (b : Bool) (id : String) (w : World State)
    → (w' : World State) × (signal b id w ≡ (ok tt, w'))
      × Beside w w'
      × (w'.tables.canceled ≡ w.tables.canceled)
unfolding ◌>>=◌
signal-ok true id w = ((signal true id w).1, refl, (refl, refl, refl), refl)
signal-ok false id w = (w, refl, (refl, refl, refl), refl)

abbrev cancelled_record : ExecutionRecord → ℕ → ExecutionRecord
cancelled_record r now = record r { status = cancelled; completed_at = some now }

cancel_open-calm :
    (has_streams : Bool) (r : ExecutionRecord) (w : World State)
    → AreCalm w.latencies
    → find key r.id w.tables.records ≡ some r
    → (w' : World State) × (cancel_open has_streams r w ≡ (ok tt, w'))
      × (w'.tables.records
          ≡ modify key r.id (updated (cancelled_record r (ready r.id w).clock)) w.tables.records)
      × AreCalm w'.latencies
      × EndsContext r.id w w'
unfolding cancel_open ◌>>=◌
cancel_open-calm has_streams r w h there =
    let w₁ = stopped r.id w in
    let (e₁, e₂, e₃) = stopped-Beside r.id w in
    let same : w₁.tables.records ≡ w.tables.records =
      e₁ ∙ after_stop-records (w.tables.owned r.id) w in
    let calm = after_stop-calm (w.tables.owned r.id) w h in
    let c = cancelled_record r w₁.clock in
    let w₂ = with_records (elapse w₁) (modify key r.id (updated c) w₁.tables.records) in
    let (w₃, s, (s₁, s₂, s₃), s₄) = signal-ok has_streams r.id w₂ in
    (
      w₃,
      rw (stop_run-ok r.id w)
          (rw (update_record-calm c r w₁ (rw e₂ calm) (rw same there)) (rw s refl)),
      rw (s₁, same, e₃) refl,
      rw (s₂, e₂) (later_of-calm (ready r.id w).latencies calm),
      (λ tracked. s₄ ∙ stopped-EndsContext r.id w tracked),
    )

-- If no statement fails, cancelling a queued or running execution succeeds: its row gets the status `cancelled`
-- and its end, which is the time once the container that its run created, if any, has been stopped, and the other rows
-- stay. The context of its run is cancelled, if it is tracked.
pub cancel_execution-cancels :
    (has_streams : Bool) (r : ExecutionRecord) (w : World State)
    → AreCalm w.latencies
    → find key r.id w.tables.records ≡ some r
    → is_open r.status ≡ true
    → (w' : World State) × (s : ExecutionRecord) × (cancel_execution has_streams r.id w
        ≡ (ok tt, w'))
      × (find key r.id w'.tables.records ≡ some s)
      × (s.status ≡ cancelled)
      × (s.completed_at ≡ some (ready r.id (elapse w)).clock)
      × ((j : String) → r.id ≢ j → find key j w'.tables.records ≡ find key j w.tables.records)
      × AreCalm w'.latencies
      × EndsContext r.id w w'
unfolding cancel_execution cancel_found ◌>>=◌
cancel_execution-cancels has_streams r w h there may =
    let c = cancelled_record r (ready r.id (elapse w)).clock in
    let (w', e, rows, calm, cancels) =
      cancel_open-calm has_streams r (elapse w) (later_of-calm w.latencies h) there in
    (
      w',
      updated c r,
      rw (get_record-calm r.id w h, there, may) e,
      rw rows (ground (arith, find-updated r.id c r w.tables.records there, eq_iff r.id r.id)),
      refl,
      refl,
      (λ j ne. rw rows (ground (arith, find-updated j c r w.tables.records there, eq_iff r.id j))),
      calm,
      cancels,
    )

missing-refuses :
    (has_streams : Bool) (id : String) (w : World State)
    → AreCalm w.latencies
    → find key id w.tables.records ≡ none
    → cancel_execution has_streams id w ≡ (err execution_not_found, elapse w)
unfolding cancel_execution ◌>>=◌
missing-refuses has_streams id w h e = rw (get_record-calm id w h, e) refl

ended-refuses :
    (has_streams : Bool) (id : String) (r : ExecutionRecord) (w : World State)
    → AreCalm w.latencies
    → find key id w.tables.records ≡ some r
    → is_open r.status ≡ false
    → cancel_execution has_streams id w ≡ (err (cannot_cancel r.status), elapse w)
unfolding cancel_execution cancel_found ◌>>=◌
ended-refuses has_streams id r w h e shut = rw (get_record-calm id w h, e, shut) refl

-- If no statement fails, `CancelExecution` gives an error only for an execution that is not there or has ended,
-- and then changes nothing: neither the table, nor what runs, nor another component.
pub cancel_execution-refuses :
    (has_streams : Bool) (id : String) (w : World State) (e : Error)
    → AreCalm w.latencies
    → (cancel_execution has_streams id w).0 ≡ err e
    → ((cancel_execution has_streams id w).1.tables ≡ w.tables)
      × (((find key id w.tables.records ≡ none) × (e ≡ execution_not_found))
          ⊎ ((r : ExecutionRecord) × (find key id w.tables.records ≡ some r)
              × (is_open r.status ≡ false)
              × (e ≡ cannot_cancel r.status)))
cancel_execution-refuses has_streams id w e h refused =
    elim (Option-cases (find key id w.tables.records)) [
      | inl nf ↦
          let m = missing-refuses has_streams id w h nf in
          rw m (refl, inl (nf, ground (arith, m, refused)))
      | inr (r, f) ↦ elim (Bool-cases (is_open r.status)) [
        | inl may ↦
            let same : r.id ≡ id = key-find key id w.tables.records r f in
            let there : find key r.id w.tables.records ≡ some r =
              ap (λ j. find key j w.tables.records) same ∙ f in
            let (w', s, ok_run, _, _, _, _, _, _) =
              cancel_execution-cancels has_streams r w h there may in
            absurd (ground (arith, ok_run, same, refused))
        | inr shut ↦
            let m = ended-refuses has_streams id r w h f shut in
            rw m (refl, inr (r, f, shut, ground (arith, m, refused)))
      ]
    ]
