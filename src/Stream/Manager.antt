-- ===== src/Stream/Manager.antt =====
-- The map of streams of internal/stream/manager.go, its methods, and sequences of their calls.
pub mod Sound
pub mod Steps
pub mod Calls
pub mod Late
use kariz.Prelude.{
  ℕ, ◌+◌, String, Option, none, some, Bytes, ◌=ₛ◌, if◌then◌else◌, update, List, [], ◌∷◌,
}
use kariz.Models.Execution.{ExecutionStatus, OutputChunk}
use kariz.Stream.Channel.{Outcome, returned, ◌>>=◌}
use kariz.Stream.{ExecutionStream, new_stream, subscribe, unsubscribe, publish, complete, cleanup}

-- `heap` has a stream at each address below `next`; `Cleanup` drops a stream from the map, and a goroutine that
-- looked it up before may still hold its address.
pub record Manager : Type 0 where
  pub streams : String → Option ℕ
  pub heap : ℕ → ExecutionStream
  pub next : ℕ

unfoldable pub new_manager : Manager
new_manager = record { streams = λ _. none; heap = λ _. new_stream; next = 0 }

abbrev pub set_stream : (String → Option ℕ) → String → Option ℕ → String → Option ℕ
set_stream m id p j = if j =ₛ id then p else m j

abbrev pub with_new : String → Manager → Manager
with_new id m = record m {
  streams = set_stream m.streams id (some m.next);
  heap = update m.heap m.next new_stream;
  next = m.next + 1;
}

pub get_or_create_stream : String → Manager → ℕ × Manager
get_or_create_stream id m = elim (m.streams id) [ some p ↦ (p, m) | none ↦ (m.next, with_new id m) ]

abbrev pub write : Manager → ℕ → ExecutionStream → Manager
write m p es = record m { heap = update m.heap p es }

-- A change of the stream at an address, under its lock.
pub change_at : ℕ → (ExecutionStream → Outcome ExecutionStream) → Manager → Outcome Manager
change_at p op m = do es ← op (m.heap p); returned (write m p es)

-- `Publish` looks the stream up, and then changes it. Here nothing happens in between.
pub publish_to : String → OutputChunk → Manager → Outcome Manager
unfolding get_or_create_stream change_at
publish_to id chunk m = let (p, m') = get_or_create_stream id m in change_at p (publish chunk) m'

pub cleanup_stream : String → Manager → Outcome Manager
cleanup_stream id m = elim (m.streams id) [
  | none ↦ returned (record m { streams = set_stream m.streams id none })
  | some p ↦ cleanup (m.heap p) >>= λ es.
      returned (record m { streams = set_stream m.streams id none; heap = update m.heap p es })
]

-- What a goroutine does under one lock. `Publish`, `Complete` and `Subscribe` are first `looks_up`, under the lock of the
-- map, and then the change of the stream at the address that was found; others may come in between. The function that
-- `Subscribe` returns changes the stream at the address of `Subscribe`. `Cleanup` holds both locks at once.
pub data Call : Type 0 where
  looks_up : String → Call
  publishes : ℕ → OutputChunk → Call
  completes : ℕ → ExecutionStatus → Call
  subscribes : ℕ → Bytes → Call
  unsubscribes : ℕ → ℕ → Call
  cleans : String → Call

unfoldable pub step : Call → Manager → Outcome Manager
unfolding get_or_create_stream change_at cleanup_stream
step (looks_up id) m = returned (get_or_create_stream id m).1
step (publishes p chunk) m = change_at p (publish chunk) m
step (completes p status) m = change_at p (complete status) m
step (subscribes p last_event_id) m =
    change_at p (λ es. subscribe last_event_id es >>= λ r. returned r.0) m
step (unsubscribes p c) m = change_at p (unsubscribe c) m
step (cleans id) m = cleanup_stream id m

unfoldable pub run : List Call → Manager → Outcome Manager
run [] m = returned m
run (call ∷ calls) m = do m' ← step call m; run calls m'
