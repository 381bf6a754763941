-- ===== src/Stream.antt =====
-- internal/stream/manager.go. A stream is changed under its lock, so each method of the manager is
-- the lookup of a stream, followed by one atomic change of it. The channels of a stream's subscribers are
-- kept beside it, at the addresses of the subscribers, with what their readers have not yet taken.
pub mod Channel
pub mod Numbering
pub mod FanOut
pub mod Invariant
pub mod Lifecycle
pub mod Replay
pub mod Dropped
pub mod Delivery
pub mod Manager
pub mod Examples
use kariz.Prelude.{
  ℕ, ◌+◌, ◌-◌, String, Bool, true, false, not, Option, none, some, List, [], ◌∷◌, ◌++◌, Bytes,
  length, drop, select, ltb, ◌==◌, ◌=ₛ◌, if◌then◌else◌, update, contains, ℤ, lt_int,
}
use kariz.Models.Execution.{ExecutionStatus, OutputChunk, chunk_json, status_json, SseEvent}
use kariz.Strconv.{itoa, atoi, Atoi, parsed, syntax_error, range_error, atoi_value}
use Channel.{
  Outcome, returned, blocked, panicked, ◌>>=◌, Chan, empty_chan, send_all, try_send, close,
}

abbrev pub max_buffered_events : ℕ
max_buffered_events = 10000

-- `subscribers` is `none` for the nil map that `Cleanup` leaves.
pub record ExecutionStream : Type 0 where
  pub events : List SseEvent
  pub subscribers : Option (List ℕ)
  pub next_id : ℕ
  pub done : Bool
  pub channels : ℕ → Chan
  pub next_subscriber : ℕ

pub new_stream : ExecutionStream
new_stream = record {
  events = [];
  subscribers = some [];
  next_id = 1;
  done = false;
  channels = λ _. empty_chan;
  next_subscriber = 0;
}

-- Ranging over a nil map does nothing.
abbrev pub active : Option (List ℕ) → List ℕ
active none = []
active (some subs) = subs

-- The loop of `Subscribe` over the buffered events; `at` is the index of the first of them.
pub replay_index : ℤ → ℕ → ℕ → ℕ → List SseEvent → ℕ
replay_index id total at from [] = from
replay_index id total at from (evt ∷ rest) =
    let later = replay_index id total (at + 1) total rest in
    if lt_int id (atoi_value (atoi evt.id)) then at else later

replay_from_id : Atoi → List SseEvent → ℕ
replay_from_id (parsed id) events = replay_index id (length events) 0 0 events
replay_from_id syntax_error events = 0
replay_from_id (range_error _) events = 0

pub replay_from : Bytes → List SseEvent → ℕ
unfolding replay_from_id replay_index
replay_from [] events = 0
replay_from (c ∷ rest) events = replay_from_id (atoi (c ∷ rest)) events

-- What `Subscribe` hands back: the channel, and whether the function beside it does anything.
pub record Subscription : Type 0 where
  pub channel : ℕ
  pub unsubscribes : Bool

register : ExecutionStream → Outcome (ExecutionStream × Subscription)
register es = elim es.subscribers [
  | none ↦ panicked
  | some subs ↦ returned (
    record es { subscribers = some (c ∷ subs); next_subscriber = c + 1 },
    record { channel = c; unsubscribes = true },
  )
]
  where
    c : ℕ
    c = es.next_subscriber

open_or_close : ExecutionStream → ℕ → Chan → Outcome (ExecutionStream × Subscription)
unfolding register
open_or_close es c ch =
    if es.done
    then (do
      shut ← close ch
      returned (
        record es { channels = update es.channels c shut; next_subscriber = c + 1 },
        record { channel = c; unsubscribes = false },
      ))
    else register (record es { channels = update es.channels c ch })

pub subscribe : Bytes → ExecutionStream → Outcome (ExecutionStream × Subscription)
unfolding open_or_close
subscribe last_event_id es = do
  ch ← send_all (drop (replay_from last_event_id es.events) es.events) empty_chan
  open_or_close es es.next_subscriber ch

-- The function that `Subscribe` returns; deleting from a nil map finds nothing.
pub unsubscribe : ℕ → ExecutionStream → Outcome ExecutionStream
unsubscribe c es =
    if contains c (active es.subscribers)
    then (do
      shut ← close (es.channels c)
      returned (record es {
        subscribers = some (select (λ s. not (s == c)) (active es.subscribers));
        channels = update es.channels c shut;
      }))
    else returned es

-- `for sub := range es.subscribers`, with a body that changes the subscriber's channel.
pub for_each : (Chan → Outcome Chan) → List ℕ → (ℕ → Chan) → Outcome (ℕ → Chan)
for_each body [] chans = returned chans
for_each body (c ∷ subs) chans = do ch ← body (chans c); for_each body subs (update chans c ch)

abbrev pub trim : List SseEvent → List SseEvent
trim events =
    if ltb max_buffered_events (length events)
    then drop (length events - max_buffered_events) events
    else events

abbrev pub output_event : ℕ → OutputChunk → SseEvent
output_event n chunk = record { id = itoa n; event = "output"; payload = chunk_json chunk }

pub publish : OutputChunk → ExecutionStream → Outcome ExecutionStream
publish chunk es =
    let event = output_event es.next_id chunk in
    if es.done then returned es else (do
      chans ← for_each (try_send event) (active es.subscribers) es.channels
      returned (record es {
        next_id = es.next_id + 1;
        events = trim (es.events ++ event ∷ []);
        channels = chans;
      }))

-- Each subscriber is sent the event if there is room, and is closed.
abbrev pub finish_channel : SseEvent → Chan → Outcome Chan
finish_channel event ch = do ch' ← try_send event ch; close ch'

abbrev pub complete_event : ℕ → ExecutionStatus → SseEvent
complete_event n status = record { id = itoa n; event = "complete"; payload = status_json status }

pub complete : ExecutionStatus → ExecutionStream → Outcome ExecutionStream
complete status es =
    let event = complete_event es.next_id status in
    if es.done then returned es else (do
      chans ← for_each (finish_channel event) (active es.subscribers) es.channels
      returned (record es {
        next_id = es.next_id + 1;
        events = es.events ++ event ∷ [];
        done = true;
        channels = chans;
        subscribers = some [];
      }))

-- What `Cleanup` does to the stream itself.
pub cleanup : ExecutionStream → Outcome ExecutionStream
cleanup es = do
  chans ← for_each close (active es.subscribers) es.channels
  returned (record es { channels = chans; subscribers = none; events = [] })
