-- ===== src/Stream/Replay.antt =====
-- `Subscribe` of internal/stream/manager.go: what it replays, and when it can return.
use kariz.Prelude.{
  ℕ, ◌+◌, ◌-◌, ◌≤◌, ◌<◌, ◌^◌, ◌≡◌, refl, false, not, some, List, [], ◌∷◌, ◌↔◌, inl, inr, Bool-cases,
  Bytes, arith, length, drop, select, ltb, if◌then◌else◌, contains, update,
}
use kariz.Models.Execution.{SseEvent}
use kariz.Strconv.{atoi, Atoi, parsed, syntax_error, range_error}
use kariz.Stream.Channel.{
  returned, blocked, Chan, capacity, holding, send_all-fits, send_all-blocks,
}
use kariz.Stream.Numbering.{Numbered, comes_after, drop-replay_index}
use kariz.Stream.FanOut.{Distinct}
use kariz.Stream.Invariant.{IsWellFormed, AreServed}
use kariz.Stream.{
  ExecutionStream, active, replay_from, replay_from_id, replay_index, subscribe, open_or_close,
  register, Subscription,
}

-- What a client asks for: the events after the ID that it has seen last, or all of them where it
-- sends no ID or one that is no int.
abbrev pub requested : Bytes → List SseEvent → List SseEvent
requested [] events = events
requested (c ∷ rest) events = elim (atoi (c ∷ rest)) [
  | parsed z ↦ select (comes_after z) events
  | _ ↦ events
]

from_id-requested :
    (a : Atoi) (first : ℕ) (events : List SseEvent)
    → Numbered first events
    → first + length events ≤ 2 ^ 63
    → drop (replay_from_id a events) events
      ≡ elim a [ parsed z ↦ select (comes_after z) events | _ ↦ events ]
unfolding replay_from_id replay_index
from_id-requested (parsed z) first [] h lt = refl
from_id-requested (parsed z) first (e ∷ es) h lt =
    let all = e ∷ es in
    let p = (drop-replay_index z (length all) 0 first all h lt (omega arith)).1 in
    let whole : replay_index z (length all) 0 (length all) all - 0
        ≡ replay_index z (length all) 0 (length all) all =
      omega arith in
    rw whole at p
from_id-requested syntax_error first events h lt = refl
from_id-requested (range_error z) first events h lt = refl

replay-requested :
    (last_event_id : Bytes) (es : ExecutionStream)
    → IsWellFormed es
    → es.next_id ≤ 2 ^ 63
    → drop (replay_from last_event_id es.events) es.events ≡ requested last_event_id es.events
unfolding replay_from
replay-requested [] es w lt = refl
replay-requested (c ∷ rest) es w lt =
    from_id-requested (atoi (c ∷ rest)) (es.next_id - length es.events) es.events w.numbered
      (omega (arith, w.counted))

abbrev pub replayed : Bytes → ExecutionStream → List SseEvent
replayed id es = drop (replay_from id es.events) es.events

AreServed-later :
    (chans : ℕ → Chan) (next : ℕ) (ch : Chan) (subs : List ℕ)
    → AreServed chans next subs
    → AreServed (update chans next ch) (next + 1) subs
AreServed-later chans next ch [] h = tt
AreServed-later chans next ch (c ∷ subs) h = (ground arith, AreServed-later chans next ch subs h.1)

not-contains-next :
    (chans : ℕ → Chan) (next : ℕ) (subs : List ℕ)
    → AreServed chans next subs
    → contains next subs ≡ false
not-contains-next chans next [] h = refl
not-contains-next chans next (c ∷ subs) h = ground (arith, not-contains-next chans next subs h.1)

-- The stream after `Subscribe` on a stream with a subscriber map, and the channel in it.
abbrev pub subscribed : Bytes → List ℕ → ExecutionStream → ExecutionStream
subscribed id subs es =
    let c = es.next_subscriber in
    record es {
      subscribers = if es.done then es.subscribers else some (c ∷ subs);
      channels = update es.channels c (record { buffer = replayed id es; closed = es.done });
      next_subscriber = c + 1;
    }

pub subscribed-IsWellFormed :
    (id : Bytes) (subs : List ℕ) (es : ExecutionStream)
    → IsWellFormed es
    → es.subscribers ≡ some subs
    → length (replayed id es) ≤ capacity
    → IsWellFormed (subscribed id subs es)
subscribed-IsWellFormed id subs es w live fits =
    let distinct : Distinct subs = rw live at w.distinct in
    let served : AreServed es.channels es.next_subscriber subs = rw live at w.served in
    let later =
      AreServed-later es.channels es.next_subscriber (holding (replayed id es)) subs served in
    let fresh = not-contains-next es.channels es.next_subscriber subs served in
    elim (Bool-cases es.done) [
      | inl d ↦
          let none_left : subs ≡ [] = rw live at (w.finished d) in
          record {
            numbered = w.numbered;
            counted = w.counted;
            bounded = w.bounded;
            distinct = rw d w.distinct;
            served = rw (d, live, none_left) tt;
            finished = λ _. rw d (w.finished d);
          }
      | inr d ↦ record {
        numbered = w.numbered;
        counted = w.counted;
        bounded = w.bounded;
        distinct = rw d (fresh, distinct);
        served = rw d (ground arith, later);
        finished = λ e. cc;
      }
    ]

pub subscribe-fits :
    (id : Bytes) (subs : List ℕ) (es : ExecutionStream)
    → es.subscribers ≡ some subs
    → length (replayed id es) ≤ capacity
    → subscribe id es
      ≡ returned (
        subscribed id subs es,
        record { channel = es.next_subscriber; unsubscribes = not es.done },
      )
unfolding subscribe
subscribe-fits id subs es live fits =
    rw (send_all-fits (replayed id es) [] (omega arith))
      (unfold open_or_close register in ground arith)

pub subscribe-waits :
    (id : Bytes) (es : ExecutionStream)
    → capacity < length (replayed id es)
    → subscribe id es ≡ blocked
unfolding subscribe
subscribe-waits id es long = rw (send_all-blocks (replayed id es) [] (omega arith) (omega arith))

-- On a stream that has its subscriber map, `Subscribe` returns if what the client asks for fits the new
-- channel. The channel then holds exactly that, it is closed if the execution is done and registered if
-- not, and the stream stays well formed.
pub subscribe-requested :
    (id : Bytes) (subs : List ℕ) (es : ExecutionStream)
    → IsWellFormed es
    → es.next_id ≤ 2 ^ 63
    → es.subscribers ≡ some subs
    → length (requested id es.events) ≤ capacity
    → (es' : ExecutionStream) × (sub : Subscription) × (subscribe id es ≡ returned (es', sub))
      × IsWellFormed es'
      × ((es'.channels sub.channel).buffer ≡ requested id es.events)
      × ((es'.channels sub.channel).closed ≡ es.done)
      × (contains sub.channel (active es'.subscribers) ≡ not es.done)
subscribe-requested id subs es w lt live fits =
    let same = replay-requested id es w lt in
    let fits' : length (replayed id es) ≤ capacity = rw same fits in
    let served : AreServed es.channels es.next_subscriber subs = rw live at w.served in
    (
      subscribed id subs es,
      record { channel = es.next_subscriber; unsubscribes = not es.done },
      subscribe-fits id subs es live fits',
      subscribed-IsWellFormed id subs es w live fits',
      ground (arith, same),
      ground arith,
      ground (arith, not-contains-next es.channels es.next_subscriber subs served, w.finished),
    )

-- `Subscribe` never returns exactly when what the client asks for is more than the channel can hold: it waits,
-- holding the stream's lock, for a reader of a channel that it has not handed out yet.
pub subscribe_blocks :
    (id : Bytes) (subs : List ℕ) (es : ExecutionStream)
    → IsWellFormed es
    → es.next_id ≤ 2 ^ 63
    → es.subscribers ≡ some subs
    → (subscribe id es ≡ blocked) ↔ (capacity < length (requested id es.events))
subscribe_blocks id subs es w lt live = (
  (λ stuck. elim (Bool-cases (ltb capacity (length (requested id es.events)))) [
    | inl long ↦ ground arith
    | inr fits ↦ cc (stuck, (subscribe-requested id subs es w lt live (ground arith)).2)
  ]),
  (λ long. subscribe-waits id es (rw (replay-requested id es w lt) long)),
)
