-- ===== src/Executor/Containers.antt =====
-- What a run of internal/executor/service.go does to containers.
use mathlib.Core.List.{append-nil}
use kariz.Prelude.{
  Bytes, ◌≡◌, ◌⊎◌, refl, inl, inr, String, Bool, true, false, Option, none, some, List, [], ◌∷◌,
  ◌++◌, Bool-cases, select, select-append, if◌then◌else◌,
}
use kariz.Models.Errors.{Error, Message}
use kariz.Models.Command.{CommandEntry, ArtifactDeclare}
use kariz.Models.Execution.{OutputChunk, ExecutionRecord, ExecInspectResult}
use kariz.Database.{Result, ok, err}
use kariz.Executor.{
  Call, creates, starts, stops, removes, untracks, disowns, copies, Answers, ContextError,
  deadline_exceeded, canceled, finish, fail_execution, published, copied, is_empty, config_of,
  run_create_mode, run_exec_mode, run_logs_mode, timeout_execution, timeout_exec_execution,
  complete_execution, stop_and_fail, unless_ended, create_attached, create_started, create_made,
  create_answered, exec_attached, exec_made, logs_attached, inspected, captured, running_record,
  on_target,
}

-- The calls that change the life of a container.
abbrev pub touches : Call → Bool
touches (creates config) = true
touches (starts c) = true
touches (stops c n) = true
touches (removes c) = true
touches c = false

abbrev pub touching : List Call → List Call
touching = select touches

abbrev IsQuiet : List Call → Type 0
IsQuiet calls = touching calls ≡ []

append-IsQuiet : (xs ys : List Call) → IsQuiet xs → IsQuiet ys → IsQuiet (xs ++ ys)
append-IsQuiet xs ys h h' = rw (select-append touches xs ys, h, h') refl

-- At most one stop of the container.
abbrev pub MayStop : String → List Call → Type 0
MayStop c calls = (calls ≡ []) ⊎ (calls ≡ stops c 5 ∷ [])

module _ (a : Answers) where
  published-IsQuiet : (id : String) (out : List OutputChunk) → IsQuiet (published a id out)
  published-IsQuiet id [] = refl
  published-IsQuiet id (c ∷ out) = elim (Bool-cases a.has_streams) [
    | inl e ↦ rw e (published-IsQuiet id out)
    | inr e ↦ rw e (published-IsQuiet id out)
  ]

  finish-IsQuiet : (r : ExecutionRecord) → IsQuiet (finish a r)
  unfolding finish
  finish-IsQuiet r = elim (Bool-cases a.has_notify) [
    | inl e ↦ elim (Bool-cases a.has_streams) [
      | inl e' ↦ rw (e, e') refl
      | inr e' ↦ rw (e, e') refl
    ]
    | inr e ↦ elim (Bool-cases a.has_streams) [
      | inl e' ↦ rw (e, e') refl
      | inr e' ↦ rw (e, e') refl
    ]
  ]

  fail-IsQuiet : (message : Message) (r : ExecutionRecord) → IsQuiet (fail_execution a message r)
  unfolding fail_execution
  fail-IsQuiet message r = finish-IsQuiet _

  unless_ended-IsQuiet :
      (context again : Option ContextError) (timeout rest : List Call)
      → IsQuiet timeout
      → IsQuiet rest
      → IsQuiet (unless_ended a context again timeout rest)
  unfolding unless_ended
  unless_ended-IsQuiet (some deadline_exceeded) again timeout rest t r = t
  unless_ended-IsQuiet (some canceled) (some canceled) timeout rest t r = refl
  unless_ended-IsQuiet (some canceled) (some deadline_exceeded) timeout rest t r = r
  unless_ended-IsQuiet (some canceled) none timeout rest t r = r
  unless_ended-IsQuiet none (some canceled) timeout rest t r = refl
  unless_ended-IsQuiet none (some deadline_exceeded) timeout rest t r = r
  unless_ended-IsQuiet none none timeout rest t r = r

  unless_ended-MayStop :
      (c : String) (context again : Option ContextError) (timeout rest : List Call)
      → MayStop c (touching timeout)
      → IsQuiet rest
      → MayStop c (touching (unless_ended a context again timeout rest))
  unfolding unless_ended
  unless_ended-MayStop c (some deadline_exceeded) again timeout rest t r = t
  unless_ended-MayStop c (some canceled) (some canceled) timeout rest t r = inl refl
  unless_ended-MayStop c (some canceled) (some deadline_exceeded) timeout rest t r = inl r
  unless_ended-MayStop c (some canceled) none timeout rest t r = inl r
  unless_ended-MayStop c none (some canceled) timeout rest t r = inl refl
  unless_ended-MayStop c none (some deadline_exceeded) timeout rest t r = inl r
  unless_ended-MayStop c none none timeout rest t r = inl r

  module _ (cmd : CommandEntry) where
    copied-IsQuiet : (id container : String) → IsQuiet (copied a cmd id container)
    copied-IsQuiet id container = elim (Bool-cases a.has_copier) [
      | inl e ↦ rw e (copies_quiet cmd.artifacts)
      | inr e ↦ rw e refl
    ]
      where
        copies_quiet :
            (xs : List ArtifactDeclare)
            → IsQuiet
                (if is_empty a xs then [] else copies id container xs cmd.artifact_destination ∷ [])
        copies_quiet [] = refl
        copies_quiet (x ∷ xs) = refl

    create_attached-MayStop :
        (c : String) (r : ExecutionRecord) → MayStop c (touching (create_attached a cmd c r))
    unfolding create_attached timeout_execution complete_execution
    create_attached-MayStop c r =
        let r' = captured a r in
        rw
          (
            select-append touches (published a r.id a.output) (
                unless_ended a a.context a.context_again (timeout_execution a c r')
                  (copied a cmd r.id c ++ complete_execution a r')),
            published-IsQuiet r.id a.output,
          )
          (unless_ended-MayStop c a.context a.context_again _ _ (inr (rw (finish-IsQuiet _) refl))
            (append-IsQuiet (copied a cmd r.id c) _ (copied-IsQuiet r.id c) (finish-IsQuiet _)))

    create_made-MayStop :
        (start : Option Error) (c : String) (r : ExecutionRecord)
        → MayStop c (touching (create_made a cmd start c r))
    create_made-MayStop (some e) c r = inl (fail-IsQuiet _ r)
    create_made-MayStop none c r = by_attach a.attach
      where
        by_attach : (attach : Option Error) → MayStop c (touching (create_started a cmd attach c r))
        by_attach (some e) = unfold stop_and_fail in inr (rw (fail-IsQuiet _ r) refl)
        by_attach none = create_attached-MayStop c r

    -- The life of the container of a run, given what its creation answered.
    abbrev pub Life : List Bytes → Result String → List Call → Type 0
    Life args (err e) calls = calls ≡ creates (config_of a cmd args) ∷ []
    Life args (ok c) calls =
        (stopping : List Call) × MayStop c stopping
        × (calls ≡ creates (config_of a cmd args) ∷ starts c ∷ stopping ++ removes c ∷ [])

    create_answered-Life :
        (args : List Bytes) (answer : Result String) (r : ExecutionRecord)
        → Life args answer
            (creates (config_of a cmd args) ∷ touching (create_answered a cmd answer r))
    create_answered-Life args (err e) r = rw (fail-IsQuiet _ r) refl
    create_answered-Life args (ok c) r =
        let r' = record r { container_id = some c } in
        let made = create_made a cmd a.start c r' in
        (
          touching made,
          create_made-MayStop a.start c r',
          rw (select-append touches made (removes c ∷ disowns r.id ∷ [])) refl,
        )

    -- In create mode, and however the run goes, the container that it creates is started once, then stopped once at
    -- most, and then removed once; nothing else is created, started, stopped or removed. If the creation fails,
    -- none is started, stopped or removed.
    pub run_create_mode-Life :
        (args : List Bytes) (r : ExecutionRecord)
        → Life args a.container (touching (run_create_mode a cmd args r))
    unfolding run_create_mode
    run_create_mode-Life args r =
        let r' = running_record a r in
        rw
          (
            select-append touches (create_answered a cmd a.container r') (untracks r.id ∷ []),
            append-nil,
          )
          (create_answered-Life args a.container r')

    inspected-IsQuiet :
        (answer : Result ExecInspectResult) (r : ExecutionRecord)
        → IsQuiet (inspected a cmd answer r)
    inspected-IsQuiet (err e) r = fail-IsQuiet _ r
    inspected-IsQuiet (ok i) r =
        append-IsQuiet (copied a cmd r.id cmd.target_container) _
          (copied-IsQuiet r.id cmd.target_container) (finish-IsQuiet _)

    exec_attached-IsQuiet :
        (attach : Option Error) (r : ExecutionRecord) → IsQuiet (exec_attached a cmd attach r)
    unfolding exec_attached timeout_exec_execution
    exec_attached-IsQuiet (some e) r = fail-IsQuiet _ r
    exec_attached-IsQuiet none r =
        append-IsQuiet (published a r.id a.output) _ (published-IsQuiet r.id a.output) (
          unless_ended-IsQuiet a.context a.context_again _ _ (finish-IsQuiet _)
            (inspected-IsQuiet a.inspect (captured a r)))

    exec_made-IsQuiet :
        (answer : Result String) (r : ExecutionRecord) → IsQuiet (exec_made a cmd answer r)
    exec_made-IsQuiet (err e) r = fail-IsQuiet _ r
    exec_made-IsQuiet (ok id) r = exec_attached-IsQuiet a.attach r

    logs_attached-IsQuiet :
        (attach : Option Error) (r : ExecutionRecord) → IsQuiet (logs_attached a cmd attach r)
    unfolding logs_attached timeout_exec_execution complete_execution
    logs_attached-IsQuiet (some e) r = fail-IsQuiet _ r
    logs_attached-IsQuiet none r =
        append-IsQuiet (published a r.id a.output) _ (published-IsQuiet r.id a.output)
          (unless_ended-IsQuiet a.context a.context_again _ _ (finish-IsQuiet _) (finish-IsQuiet _))

    -- In the modes exec and logs, a run creates, starts, stops and removes no container, whatever happens:
    -- the target container is left running.
    pub run_exec_mode-leaves :
        (args : List Bytes) (r : ExecutionRecord)
        → (touching (run_exec_mode a cmd args r) ≡ []) × (touching (run_logs_mode a cmd r) ≡ [])
    unfolding run_exec_mode run_logs_mode
    run_exec_mode-leaves args r =
        let r' = on_target a cmd r in
        (
          append-IsQuiet (exec_made a cmd a.exec_id r') (untracks r.id ∷ [])
              (exec_made-IsQuiet a.exec_id r') refl,
          append-IsQuiet (logs_attached a cmd a.attach r') (untracks r.id ∷ [])
              (logs_attached-IsQuiet a.attach r') refl,
        )
