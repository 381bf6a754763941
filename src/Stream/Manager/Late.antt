-- ===== src/Stream/Manager/Late.antt =====
-- `Subscribe` of internal/stream/manager.go, when `Cleanup` comes between its lookup and its change of the stream.
use kariz.Prelude.{
  ◌≡◌, ◌≤◌, refl, ◌∙◌, ℕ, String, false, none, some, [], ◌∷◌, Bytes, arith, length, length-drop,
  drop, update,
}
use kariz.Models.Execution.{SseEvent}
use kariz.Stream.Channel.{Outcome, returned, blocked, panicked, ◌>>=◌, capacity, Chan, close}
use kariz.Stream.{ExecutionStream, active, cleanup, for_each, replay_from}
use kariz.Stream.Lifecycle.{cleanup-IsWellFormed}
use kariz.Stream.Dropped.{subscribe-panics}
use kariz.Stream.Replay.{replayed}
use kariz.Stream.Manager.{
  Manager, looks_up, cleans, subscribes, get_or_create_stream, change_at, set_stream,
  cleanup_stream, step, run,
}
use kariz.Stream.Manager.Sound.{IsSteady, get_or_create-some}

abbrev Drops : ExecutionStream → ExecutionStream → Type 0
Drops es es' = (es'.subscribers ≡ none) × (es'.events ≡ []) × (es'.done ≡ es.done)

after_closing :
    (es es' : ExecutionStream) (o : Outcome (ℕ → Chan))
    → (o >>= λ chans. returned (record es { channels = chans; subscribers = none; events = [] }))
      ≡ returned es'
    → Drops es es'
after_closing es es' (returned chans) h = (ground (arith, h), ground (arith, h), ground (arith, h))
after_closing es es' blocked h = absurd (ground (arith, h))
after_closing es es' panicked h = absurd (ground (arith, h))

cleanup-Drops : (es es' : ExecutionStream) → cleanup es ≡ returned es' → Drops es es'
unfolding cleanup
cleanup-Drops es es' h = after_closing es es' (for_each close (active es.subscribers) es.channels) h

length-drop_nil : (n : ℕ) → length (drop {A = SseEvent} n []) ≡ 0
length-drop_nil n = rw (length-drop n []) (omega arith)

replayed-nil :
    (last : Bytes) (es : ExecutionStream) → es.events ≡ [] → length (replayed last es) ≤ capacity
replayed-nil last es h = rw h (rw (length-drop_nil (replay_from last [])) (omega arith))

cleaned : String → ℕ → ExecutionStream → Manager → Manager
cleaned id p es m = record m { streams = set_stream m.streams id none; heap = update m.heap p es }

cleanup_stream-cleaned :
    (id : String) (p : ℕ) (es : ExecutionStream) (m : Manager)
    → m.streams id ≡ some p
    → cleanup (m.heap p) ≡ returned es
    → cleanup_stream id m ≡ returned (cleaned id p es m)
unfolding cleanup_stream cleaned
cleanup_stream-cleaned id p es m there returns = rw (there, cleanup_stream) (rw returns refl)

-- The fault of looking a stream up and changing it under two locks: if the manager is sound, the execution has a stream and
-- is not done, and `Cleanup` comes between the lookup of `Subscribe` and its change of the stream, then `Subscribe` writes to a
-- nil map and panics, whatever event ID it was given.
pub late_subscribe-panics :
    (id : String) (p : ℕ) (last : Bytes) (m : Manager)
    → IsSteady m
    → m.streams id ≡ some p
    → (m.heap p).done ≡ false
    → ((get_or_create_stream id m).0 ≡ p)
      × (run (looks_up id ∷ cleans id ∷ subscribes p last ∷ []) m ≡ panicked)
unfolding run step change_at
late_subscribe-panics id p last m s there going =
    let (es, returns, w) = cleanup-IsWellFormed (m.heap p) (s.whole p) in
    let (gone, nothing, same) = cleanup-Drops (m.heap p) es returns in
    let self : update m.heap p es p ≡ es = ground arith in
    (
      rw (get_or_create-some id p m there) refl,
      rw (get_or_create-some id p m there) (
          rw (cleanup_stream-cleaned id p es m there returns) (
            unfold cleaned in
            rw (self, subscribe-panics last es gone (same ∙ going) (replayed-nil last es nothing))
              refl)),
    )
