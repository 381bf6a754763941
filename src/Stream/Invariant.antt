-- ===== src/Stream/Invariant.antt =====
-- What holds of a stream between two calls of the manager (internal/stream/manager.go).
use kariz.Prelude.{
  ℕ, ◌+◌, ◌-◌, ◌≤◌, ◌<◌, ◌≡◌, Bool, true, false, List, [], ◌∷◌, ◌++◌, arith, inl, inr, Bool-cases,
  length, length-append, length-drop, drop, All, ltb, if◌then◌else◌, update, contains,
}
use kariz.Models.Execution.{OutputChunk, SseEvent}
use kariz.Stream.Channel.{returned, Chan, capacity, put, try_send}
use kariz.Stream.Numbering.{Numbered, Numbered-append, Numbered-drop}
use kariz.Stream.FanOut.{Distinct, AreOpen, for_each-eq}
use kariz.Stream.{
  ExecutionStream, active, trim, max_buffered_events, new_stream, publish, output_event,
}

-- The channel of a current subscriber is open and within its capacity, and was handed out before.
abbrev pub AreServed : (ℕ → Chan) → ℕ → List ℕ → Type 0
AreServed chans next subs =
    All (λ c. ((chans c).closed ≡ false) × (length (chans c).buffer ≤ capacity) × (c < next)) subs

abbrev pub buffer_limit : Bool → ℕ
buffer_limit true = max_buffered_events + 1
buffer_limit false = max_buffered_events

pub record IsWellFormed (es : ExecutionStream) : Type 0 where
  pub numbered : Numbered (es.next_id - length es.events) es.events
  pub counted : length es.events < es.next_id
  pub bounded : length es.events ≤ buffer_limit es.done
  pub distinct : Distinct (active es.subscribers)
  pub served : AreServed es.channels es.next_subscriber (active es.subscribers)
  pub finished : es.done ≡ true → active es.subscribers ≡ []

pub new_stream-IsWellFormed : IsWellFormed new_stream
unfolding new_stream
new_stream-IsWellFormed = ground arith

pub open_of_served :
    (chans : ℕ → Chan) (next : ℕ) (subs : List ℕ) → AreServed chans next subs → AreOpen chans subs
open_of_served chans next [] h = tt
open_of_served chans next (c ∷ subs) h = ((h.0).0, open_of_served chans next subs h.1)

-- Channel operations that keep a channel served keep all of them served.
pub AreServed-if :
    (f : Chan → Chan)
    → ((ch : Chan)
        → ch.closed ≡ false
        → length ch.buffer ≤ capacity
        → ((f ch).closed ≡ false) × (length (f ch).buffer ≤ capacity))
    → (test : ℕ → Bool) (chans : ℕ → Chan) (next : ℕ) (subs : List ℕ) → AreServed chans next subs
    → AreServed (λ j. if test j then f (chans j) else chans j) next subs
AreServed-if f keep test chans next [] h = tt
AreServed-if f keep test chans next (c ∷ subs) h =
    (ground (arith, keep (chans c)), AreServed-if f keep test chans next subs h.1)

pub AreServed-update :
    (chans : ℕ → Chan) (next k : ℕ) (ch : Chan) (subs : List ℕ)
    → contains k subs ≡ false
    → AreServed chans next subs
    → AreServed (update chans k ch) next subs
AreServed-update chans next k ch [] h s = tt
AreServed-update chans next k ch (c ∷ subs) h s =
    (ground arith, AreServed-update chans next k ch subs (ground arith) s.1)

-- What a fan-out leaves in a subscriber's channel.
abbrev pub delivered : SseEvent → Chan → Chan
delivered e ch = if ltb (length ch.buffer) capacity then put e ch else ch

pub delivered-served :
    (e : SseEvent) (ch : Chan)
    → ch.closed ≡ false
    → length ch.buffer ≤ capacity
    → ((delivered e ch).closed ≡ false) × (length (delivered e ch).buffer ≤ capacity)
delivered-served e ch o l = ground (arith, length-append ch.buffer (e ∷ []))

pub try_send-eq :
    (e : SseEvent) (ch : Chan) → ch.closed ≡ false → try_send e ch ≡ returned (delivered e ch)
try_send-eq e ch h = ground arith

trim-Numbered :
    (first next : ℕ) (xs : List SseEvent)
    → Numbered first xs
    → first + length xs ≡ next
    → (Numbered (next - length (trim xs)) (trim xs))
      × (length (trim xs) ≤ max_buffered_events)
      × (length (trim xs) ≤ length xs)
trim-Numbered first next xs h e = elim (Bool-cases (ltb max_buffered_events (length xs))) [
  | inl long ↦
      let l = length-drop (length xs - max_buffered_events) xs in
      let at : next - length (drop (length xs - max_buffered_events) xs)
          ≡ first + (length xs - max_buffered_events) =
        ground arith in
      rw long (
        rw at (Numbered-drop (length xs - max_buffered_events) first xs (omega arith) h),
        ground arith,
        omega arith,
      )
  | inr short ↦
      let at : next - length xs ≡ first = omega arith in
      rw short (rw at h, ground arith, omega arith)
]

-- The state after `Publish` on a stream that is not done.
abbrev pub published : OutputChunk → ExecutionStream → ExecutionStream
published chunk es =
    let event = output_event es.next_id chunk in
    record es {
      next_id = es.next_id + 1;
      events = trim (es.events ++ event ∷ []);
      channels = λ j.
          if contains j (active es.subscribers)
          then delivered event (es.channels j)
          else es.channels j;
    }

pub publish-open :
    (chunk : OutputChunk) (es : ExecutionStream)
    → IsWellFormed es
    → es.done ≡ false
    → publish chunk es ≡ returned (published chunk es)
unfolding publish
publish-open chunk es w d = rw (
  d,
  for_each-eq (try_send (output_event es.next_id chunk)) (delivered (output_event es.next_id chunk))
      (try_send-eq (output_event es.next_id chunk)) (active es.subscribers) es.channels w.distinct
      (open_of_served es.channels es.next_subscriber (active es.subscribers) w.served),
)

pub published-IsWellFormed :
    (chunk : OutputChunk) (es : ExecutionStream)
    → IsWellFormed es
    → es.done ≡ false
    → IsWellFormed (published chunk es)
published-IsWellFormed chunk es w d =
    let event = output_event es.next_id chunk in
    let l = length-append es.events (event ∷ []) in
    let at : es.next_id - length es.events + length es.events ≡ es.next_id =
      omega (arith, w.counted) in
    let t =
      trim-Numbered (es.next_id - length es.events) (es.next_id + 1) (es.events ++ event ∷ [])
        (Numbered-append (es.next_id - length es.events) es.events event w.numbered (rw at))
        (omega (arith, w.counted)) in
    record {
      numbered = t.0;
      counted = omega (arith, w.counted, t.2);
      bounded = rw d t.1;
      distinct = w.distinct;
      served =
          AreServed-if (delivered event) (delivered-served event)
            (λ j. contains j (active es.subscribers)) es.channels es.next_subscriber
            (active es.subscribers) w.served;
      finished = w.finished;
    }

-- `Publish` always returns, and keeps the stream well formed.
pub publish-IsWellFormed :
    (chunk : OutputChunk) (es : ExecutionStream)
    → IsWellFormed es
    → (es' : ExecutionStream) × (publish chunk es ≡ returned es') × IsWellFormed es'
publish-IsWellFormed chunk es w = elim (Bool-cases es.done) [
  | inl d ↦ (es, unfold publish in rw d, w)
  | inr d ↦ (published chunk es, publish-open chunk es w d, published-IsWellFormed chunk es w d)
]
