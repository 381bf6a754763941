-- ===== src/Stream/Manager/Calls.antt =====
-- Sequences of calls on the manager of internal/stream/manager.go, of goroutines that interleave.
use kariz.Prelude.{
  ℕ, ◌≡◌, ◌≢◌, refl, ap, String, some, List, [], ◌∷◌, ◌++◌, inl, inr, Option-cases, arith, eq_iff,
  update,
}
use kariz.Models.Execution.{OutputChunk}
use kariz.Stream.Channel.{Outcome, returned, blocked, panicked, ◌>>=◌}
use kariz.Stream.Invariant.{publish-IsWellFormed, new_stream-IsWellFormed}
use kariz.Stream.{new_stream}
use kariz.Stream.Manager.{Manager, with_new, write, change_at, publish_to, Call, step, run}
use kariz.Stream.Manager.Sound.{IsSound, IsSteady, get_or_create-some, get_or_create-none}
use kariz.Stream.Manager.Steps.{Waits, Panics, StepSafe, step-StepSafe}

-- One of the calls comes after others that returned, and of it the property holds.
abbrev pub StopsAt : (Call → Manager → Type 0) → List Call → Manager → Type 0
StopsAt P calls m =
    (before : List Call) × (call : Call) × (after : List Call) × (m' : Manager) × (calls
      ≡ before ++ call ∷ after)
    × (run before m ≡ returned m')
    × IsSteady m'
    × P call m'

abbrev pub Safe : List Call → Manager → Outcome Manager → Type 0
Safe calls m (returned m') = IsSteady m'
Safe calls m blocked = StopsAt Waits calls m
Safe calls m panicked = StopsAt Panics calls m

first-StopsAt :
    (P : Call → Manager → Type 0) (call : Call) (calls : List Call) (m : Manager)
    → IsSteady m
    → P call m
    → StopsAt P (call ∷ calls) m
first-StopsAt P call calls m s h = ([], call, calls, m, refl, unfold run in refl, s, h)

later-StopsAt :
    (P : Call → Manager → Type 0) (first : Call) (calls : List Call) (m m₁ : Manager)
    → step first m ≡ returned m₁
    → StopsAt P calls m₁
    → StopsAt P (first ∷ calls) m
later-StopsAt P first calls m m₁ e (before, call, after, m', parts, returns, s, h) =
    (first ∷ before, call, after, m', ap (◌∷◌ first) parts, unfold run in rw e returns, s, h)

later-Safe :
    (first : Call) (calls : List Call) (m m₁ : Manager) (o : Outcome Manager)
    → step first m ≡ returned m₁
    → Safe calls m₁ o
    → Safe (first ∷ calls) m o
later-Safe first calls m m₁ (returned m') e s = s
later-Safe first calls m m₁ blocked e s = later-StopsAt Waits first calls m m₁ e s
later-Safe first calls m m₁ panicked e s = later-StopsAt Panics first calls m m₁ e s

after-Safe :
    (call : Call) (calls : List Call) (m : Manager) (r : Outcome Manager)
    → step call m ≡ r
    → IsSteady m
    → StepSafe call m r
    → ((m' : Manager) → IsSteady m' → Safe calls m' (run calls m'))
    → Safe (call ∷ calls) m (r >>= run calls)
after-Safe call calls m (returned m₁) e s h ih =
    later-Safe call calls m m₁ (run calls m₁) e (ih m₁ h)
after-Safe call calls m blocked e s h ih = first-StopsAt Waits call calls m s h
after-Safe call calls m panicked e s h ih = first-StopsAt Panics call calls m s h

-- From a sound manager with well-formed streams, however the calls of the manager's methods and of the functions that
-- `Subscribe` returned interleave, lookups and changes being calls of their own: if all return, the manager is
-- sound and each stream well formed again, also those that were dropped. If not, those before the first that does not return left
-- them so, and it is a `Subscribe`: it waits with more to replay than its channel holds, or it panics on a stream that is not done,
-- is no longer that of any execution, and has a nil map of subscribers. So none sends on a closed channel or closes one twice.
pub run-Safe : (calls : List Call) (m : Manager) → IsSteady m → Safe calls m (run calls m)
unfolding run
run-Safe [] m s = s
run-Safe (call ∷ calls) m s =
    after-Safe call calls m (step call m) refl s (step-StepSafe call m s)
      λ m' s'. run-Safe calls m' s'

-- Publishing for one execution leaves the stream of every other as it was.
pub publish_to-separate :
    (id other : String) (chunk : OutputChunk) (m : Manager) (q : ℕ)
    → IsSound m
    → other ≢ id
    → m.streams other ≡ some q
    → (m' : Manager) × (publish_to id chunk m ≡ returned m')
      × (m'.streams other ≡ some q)
      × (m'.heap q ≡ m.heap q)
unfolding publish_to change_at
publish_to-separate id other chunk m q s ne there = elim (Option-cases (m.streams id)) [
  | inr (p, e) ↦
      let (es, returns, w) = publish-IsWellFormed chunk (m.heap p) (s.well_formed id p e) in
      (
        write m p es,
        rw (get_or_create-some id p m e) (rw returns),
        there,
        ground (arith, s.separate id other p),
      )
  | inl e ↦
      let (es, returns, w) = publish-IsWellFormed chunk new_stream new_stream-IsWellFormed in
      let self : update m.heap m.next new_stream m.next ≡ new_stream = ground arith in
      (
        write (with_new id m) m.next es,
        rw (get_or_create-none id m e) (rw (self, returns)),
        ground (arith, eq_iff other id),
        ground (arith, s.known other q there),
      )
]
