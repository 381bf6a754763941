-- ===== src/Stream/Lifecycle.antt =====
-- `Complete`, `Cleanup` and the function that `Subscribe` returns (internal/stream/manager.go).
use kariz.Prelude.{
  ℕ, ◌+◌, ◌-◌, ◌≡◌, refl, true, false, not, none, some, List, [], ◌∷◌, ◌++◌, arith, inl, inr,
  Bool-cases, length, length-append, select, ◌==◌, if◌then◌else◌, contains, update,
}
use kariz.Models.Execution.{ExecutionStatus, SseEvent}
use kariz.Stream.Channel.{returned, Chan, close}
use kariz.Stream.Numbering.{Numbered-append}
use kariz.Stream.FanOut.{Distinct, for_each-eq}
use kariz.Stream.Invariant.{IsWellFormed, AreServed, AreServed-update, delivered, open_of_served}
use kariz.Stream.{
  ExecutionStream, active, complete, complete_event, finish_channel, cleanup, unsubscribe,
}

abbrev pub shut : Chan → Chan
shut ch = record ch { closed = true }

finish_channel-eq :
    (e : SseEvent) (ch : Chan)
    → ch.closed ≡ false
    → finish_channel e ch ≡ returned (shut (delivered e ch))
finish_channel-eq e ch h = ground arith

close-eq : (ch : Chan) → ch.closed ≡ false → close ch ≡ returned (shut ch)
close-eq ch h = ground arith

abbrev pub completed_stream : ExecutionStatus → ExecutionStream → ExecutionStream
completed_stream status es =
    let event = complete_event es.next_id status in
    record es {
      next_id = es.next_id + 1;
      events = es.events ++ event ∷ [];
      done = true;
      channels = λ j.
          if contains j (active es.subscribers)
          then shut (delivered event (es.channels j))
          else es.channels j;
      subscribers = some [];
    }

pub complete-open :
    (status : ExecutionStatus) (es : ExecutionStream)
    → IsWellFormed es
    → es.done ≡ false
    → complete status es ≡ returned (completed_stream status es)
unfolding complete
complete-open status es w d =
    let event = complete_event es.next_id status in
    rw (
      d,
      for_each-eq (finish_channel event) (λ ch. shut (delivered event ch)) (finish_channel-eq event)
          (active es.subscribers) es.channels w.distinct
          (open_of_served es.channels es.next_subscriber (active es.subscribers) w.served),
    )

completed-IsWellFormed :
    (status : ExecutionStatus) (es : ExecutionStream)
    → IsWellFormed es
    → es.done ≡ false
    → IsWellFormed (completed_stream status es)
completed-IsWellFormed status es w d =
    let event = complete_event es.next_id status in
    let l = length-append es.events (event ∷ []) in
    let at : es.next_id - length es.events + length es.events ≡ es.next_id =
      omega (arith, w.counted) in
    let at' : es.next_id + 1 - length (es.events ++ event ∷ []) ≡ es.next_id - length es.events =
      omega (arith, w.counted) in
    record {
      numbered =
          rw at'
            (Numbered-append (es.next_id - length es.events) es.events event w.numbered (rw at));
      counted = omega (arith, w.counted);
      bounded = ground (arith, w.bounded);
      distinct = tt;
      served = tt;
      finished = λ _. refl;
    }

-- `Complete` always returns, and keeps the stream well formed.
pub complete-IsWellFormed :
    (status : ExecutionStatus) (es : ExecutionStream)
    → IsWellFormed es
    → (es' : ExecutionStream) × (complete status es ≡ returned es') × IsWellFormed es'
complete-IsWellFormed status es w = elim (Bool-cases es.done) [
  | inl d ↦ (es, unfold complete in rw d, w)
  | inr d ↦ (
    completed_stream status es,
    complete-open status es w d,
    completed-IsWellFormed status es w d,
  )
]

-- `Cleanup` always returns, and what it leaves is well formed.
pub cleanup-IsWellFormed :
    (es : ExecutionStream)
    → IsWellFormed es
    → (es' : ExecutionStream) × (cleanup es ≡ returned es') × IsWellFormed es'
unfolding cleanup
cleanup-IsWellFormed es w = (
  record es {
    channels =
        λ j. if contains j (active es.subscribers) then shut (es.channels j) else es.channels j;
    subscribers = none;
    events = [];
  },
  rw (
      for_each-eq close shut close-eq (active es.subscribers) es.channels w.distinct
        (open_of_served es.channels es.next_subscriber (active es.subscribers) w.served)),
  record {
    numbered = tt;
    counted = omega (arith, w.counted);
    bounded = ground arith;
    distinct = tt;
    served = tt;
    finished = λ _. refl;
  },
)

abbrev without : ℕ → List ℕ → List ℕ
without c = select (λ s. not (s == c))

contains-without :
    (j c : ℕ) (subs : List ℕ)
    → contains j (without c subs) ≡ (if j == c then false else contains j subs)
contains-without j c [] = ground arith
contains-without j c (s ∷ subs) = ground (arith, contains-without j c subs)

Distinct-without : (c : ℕ) (subs : List ℕ) → Distinct subs → Distinct (without c subs)
Distinct-without c [] d = tt
Distinct-without c (s ∷ subs) d =
    ground (arith, Distinct-without c subs d.1, contains-without s c subs)

AreServed-without :
    (chans : ℕ → Chan) (next c : ℕ) (subs : List ℕ)
    → AreServed chans next subs
    → AreServed chans next (without c subs)
AreServed-without chans next c [] h = tt
AreServed-without chans next c (s ∷ subs) h =
    ground (arith, AreServed-without chans next c subs h.1)

open_at :
    (chans : ℕ → Chan) (next c : ℕ) (subs : List ℕ)
    → contains c subs ≡ true
    → AreServed chans next subs
    → (chans c).closed ≡ false
open_at chans next c [] m h = cc
open_at chans next c (s ∷ subs) m h = elim (Bool-cases (c == s)) [
  | inl e ↦ ground arith
  | inr e ↦ open_at chans next c subs (ground arith) h.1
]

-- The function that `Subscribe` returns always returns, and keeps the stream well formed, whether the
-- subscriber is still there or not.
pub unsubscribe-IsWellFormed :
    (c : ℕ) (es : ExecutionStream)
    → IsWellFormed es
    → (es' : ExecutionStream) × (unsubscribe c es ≡ returned es') × IsWellFormed es'
unfolding unsubscribe
unsubscribe-IsWellFormed c es w = elim (Bool-cases (contains c (active es.subscribers))) [
  | inr e ↦ (es, rw e, w)
  | inl e ↦
      let subs = active es.subscribers in
      let o = open_at es.channels es.next_subscriber c subs e w.served in
      (
        record es {
          subscribers = some (without c subs);
          channels = update es.channels c (shut (es.channels c));
        },
        rw (e, o),
        record {
          numbered = w.numbered;
          counted = w.counted;
          bounded = w.bounded;
          distinct = Distinct-without c subs w.distinct;
          served =
              AreServed-update es.channels es.next_subscriber c (shut (es.channels c))
                (without c subs) (ground (arith, contains-without c c subs))
                (AreServed-without es.channels es.next_subscriber c subs w.served);
          finished = λ d. rw (w.finished d);
        },
      )
]
