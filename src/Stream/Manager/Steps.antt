-- ===== src/Stream/Manager/Steps.antt =====
-- What one call does to a sound manager of internal/stream/manager.go.
use kariz.Prelude.{
  ℕ, ◌≤◌, ◌<◌, ◌≡◌, ◌≢◌, String, false, none, some, List, [], ◌∷◌, Bytes, inl, inr, Bool-cases,
  Option-cases, arith, eq_iff, length, ltb, update, contains, select, not, ◌==◌,
}
use kariz.Models.Execution.{ExecutionStatus, OutputChunk}
use kariz.Stream.Channel.{Outcome, returned, blocked, panicked, capacity}
use kariz.Stream.Invariant.{IsWellFormed, publish-IsWellFormed}
use kariz.Stream.Lifecycle.{complete-IsWellFormed, cleanup-IsWellFormed, unsubscribe-IsWellFormed}
use kariz.Stream.Replay.{
  replayed, subscribed, subscribed-IsWellFormed, subscribe-fits, subscribe-waits,
}
use kariz.Stream.Dropped.{subscribe-panics, subscribe-done, done-IsWellFormed}
use kariz.Stream.{ExecutionStream, active, publish, complete, unsubscribe}
use kariz.Stream.Manager.{
  Manager, set_stream, write, change_at, cleanup_stream, Call, looks_up, publishes, completes,
  subscribes, unsubscribes, cleans, step,
}
use kariz.Stream.Manager.Sound.{
  IsSound, IsLive, IsSteady, write-IsSteady, looked_up, IsWellFormed-update,
}

subscribers-publish :
    (chunk : OutputChunk) (es es' : ExecutionStream)
    → publish chunk es ≡ returned es'
    → IsLive es
    → IsLive es'
unfolding publish
subscribers-publish chunk es es' h l = (l.0, ground arith)

subscribers-complete :
    (status : ExecutionStatus) (es es' : ExecutionStream)
    → complete status es ≡ returned es'
    → IsLive es
    → IsLive es'
unfolding complete
subscribers-complete status es es' h l = elim (Bool-cases es.done) [
  | inl d ↦ (l.0, ground arith)
  | inr d ↦ ([], ground arith)
]

subscribers-unsubscribe :
    (c : ℕ) (es es' : ExecutionStream) → unsubscribe c es ≡ returned es' → IsLive es → IsLive es'
unfolding unsubscribe
subscribers-unsubscribe c es es' h l = elim (Bool-cases (contains c (active es.subscribers))) [
  | inl e ↦ (select (λ s. not (s == c)) (active es.subscribers), ground arith)
  | inr e ↦ (l.0, ground arith)
]

-- A change of one stream that returns, and keeps what holds of a stream, keeps the manager sound.
change_at-IsSteady :
    (p : ℕ) (op : ExecutionStream → Outcome ExecutionStream) (m : Manager)
    → ((es : ExecutionStream)
        → IsWellFormed es
        → (es' : ExecutionStream) × (op es ≡ returned es') × IsWellFormed es')
    → ((es es' : ExecutionStream) → op es ≡ returned es' → IsLive es → IsLive es')
    → IsSteady m
    → (m' : Manager) × (change_at p op m ≡ returned m') × IsSteady m'
unfolding change_at
change_at-IsSteady p op m keep live s =
    let (es, returns, w) = keep (m.heap p) (s.whole p) in
    (
      write m p es,
      rw returns,
      write-IsSteady m p es s w (λ id h. live (m.heap p) es returns (s.sound.live id p h)),
    )

update_ne :
    (heap : ℕ → ExecutionStream) (p q : ℕ) (es : ExecutionStream)
    → q ≢ p
    → update heap p es q ≡ heap q
update_ne heap p q es h = ground arith

dropped : Manager → String → ℕ → ExecutionStream → Manager
dropped m id p es = record m { streams = set_stream m.streams id none; heap = update m.heap p es }

dropped-IsSound :
    (m : Manager) (id : String) (p : ℕ) (es : ExecutionStream)
    → IsSound m
    → m.streams id ≡ some p
    → IsSound (dropped m id p es)
unfolding dropped
dropped-IsSound m id p es s e = record {
  known = λ i q h. ground (arith, s.known i q);
  well_formed =
      λ i q h. rw (update_ne m.heap p q es (other i q h)) (s.well_formed i q (ground arith));
  live = λ i q h. rw (update_ne m.heap p q es (other i q h)) (s.live i q (ground arith));
  separate = λ i j q h k. ground (arith, eq_iff i id, eq_iff j id, s.separate i j q);
}
  where
    other : (i : String) (q : ℕ) → (dropped m id p es).streams i ≡ some q → q ≢ p
    other i q h same = ground (arith, eq_iff i id, s.separate i id p)

cleanup_stream-IsSteady :
    (id : String) (m : Manager)
    → IsSteady m
    → (m' : Manager) × (cleanup_stream id m ≡ returned m') × IsSteady m'
unfolding cleanup_stream
cleanup_stream-IsSteady id m t =
    let s = t.sound in
    elim (Option-cases (m.streams id)) [
      | inl e ↦ (
        record m { streams = set_stream m.streams id none },
        rw (e, cleanup_stream),
        record {
          sound = record {
            known = λ i q h. ground (arith, s.known i q);
            well_formed = λ i q h. s.well_formed i q (ground arith);
            live = λ i q h. s.live i q (ground arith);
            separate = λ i j q h k. ground (arith, eq_iff i id, eq_iff j id, s.separate i j q);
          };
          whole = t.whole;
        },
      )
      | inr (p, e) ↦
          let (es, returns, w) = cleanup-IsWellFormed (m.heap p) (t.whole p) in
          (
            dropped m id p es,
            rw (e, cleanup_stream) (unfold dropped in rw returns),
            record {
              sound = dropped-IsSound m id p es s e;
              whole = λ q. unfold dropped in IsWellFormed-update m.heap p q es w λ ne. t.whole q;
            },
          )
    ]

-- `Subscribe` waits where it has more to replay than its channel holds; nothing else waits.
abbrev pub Waits : Call → Manager → Type 0
Waits (subscribes p last) m = capacity < length (replayed last (m.heap p))
Waits call m = ⊥

-- `Subscribe` panics where the stream that it looked up is no longer the stream of any execution, lost its map of
-- subscribers in `Cleanup`, and is not done; nothing else panics.
abbrev pub Panics : Call → Manager → Type 0
Panics (subscribes p last) m =
    ((id : String) → m.streams id ≢ some p)
    × ((m.heap p).subscribers ≡ none)
    × ((m.heap p).done ≡ false)
Panics call m = ⊥

abbrev pub StepSafe : Call → Manager → Outcome Manager → Type 0
StepSafe call m (returned m') = IsSteady m'
StepSafe call m blocked = Waits call m
StepSafe call m panicked = Panics call m

returns-StepSafe :
    (call : Call) (m : Manager) (r : Outcome Manager)
    → (m' : Manager) × (r ≡ returned m') × IsSteady m'
    → StepSafe call m r
returns-StepSafe call m r (m', e, s) = rw e s

subscribed-IsLive :
    (last : Bytes) (subs : List ℕ) (es : ExecutionStream)
    → es.subscribers ≡ some subs
    → IsLive (subscribed last subs es)
subscribed-IsLive last subs es h = elim (Bool-cases es.done) [
  | inl d ↦ (subs, ground arith)
  | inr d ↦ (es.next_subscriber ∷ subs, ground arith)
]

subscribes-fit :
    (p : ℕ) (last : Bytes) (m : Manager)
    → IsSteady m
    → length (replayed last (m.heap p)) ≤ capacity
    → StepSafe (subscribes p last) m (step (subscribes p last) m)
unfolding step change_at
subscribes-fit p last m s fits =
    let es = m.heap p in
    elim (Option-cases es.subscribers) [
      | inr (subs, e) ↦ rw (subscribe-fits last subs es e fits) (
          write-IsSteady m p (subscribed last subs es) s
            (subscribed-IsWellFormed last subs es (s.whole p) e fits)
            λ id h. subscribed-IsLive last subs es e)
      | inl gone ↦ elim (Bool-cases es.done) [
        | inl d ↦ rw (subscribe-done last es d fits) (
            write-IsSteady m p (subscribed last [] es) s
              (done-IsWellFormed last es (s.whole p) gone d)
              λ id h. cc (gone, (s.sound.live id p h).1))
        | inr going ↦
            rw (subscribe-panics last es gone going fits)
              ((λ id h. cc (gone, (s.sound.live id p h).1)), gone, going)
      ]
    ]

pub step-StepSafe : (call : Call) (m : Manager) → IsSteady m → StepSafe call m (step call m)
unfolding step
step-StepSafe (looks_up id) m s = looked_up id m s
step-StepSafe (publishes p chunk) m s = returns-StepSafe (publishes p chunk) m _ (
    change_at-IsSteady p (publish chunk) m (publish-IsWellFormed chunk) (subscribers-publish chunk)
      s)
step-StepSafe (completes p status) m s = returns-StepSafe (completes p status) m _ (
    change_at-IsSteady p (complete status) m (complete-IsWellFormed status)
      (subscribers-complete status) s)
step-StepSafe (unsubscribes p c) m s = returns-StepSafe (unsubscribes p c) m _ (
    change_at-IsSteady p (unsubscribe c) m (unsubscribe-IsWellFormed c) (subscribers-unsubscribe c)
      s)
step-StepSafe (cleans id) m s = returns-StepSafe (cleans id) m _ (cleanup_stream-IsSteady id m s)
step-StepSafe (subscribes p last) m s =
    elim (Bool-cases (ltb capacity (length (replayed last (m.heap p))))) [
      | inl long ↦
          unfold change_at in rw (subscribe-waits last (m.heap p) (ground arith)) (ground arith)
      | inr short ↦ subscribes-fit p last m s (ground arith)
    ]
