-- ===== src/Stream/Dropped.antt =====
-- `Subscribe` of internal/stream/manager.go on a stream that `Cleanup` left, whose map of subscribers is nil.
use kariz.Prelude.{◌≤◌, ◌≡◌, refl, true, false, none, [], Bytes, arith, length}
use kariz.Stream.Channel.{returned, panicked, capacity, send_all-fits}
use kariz.Stream.Invariant.{IsWellFormed}
use kariz.Stream.Replay.{replayed, subscribed}
use kariz.Stream.{ExecutionStream, subscribe, open_or_close, register}

-- Writing to the nil map panics.
pub subscribe-panics :
    (id : Bytes) (es : ExecutionStream)
    → es.subscribers ≡ none
    → es.done ≡ false
    → length (replayed id es) ≤ capacity
    → subscribe id es ≡ panicked
unfolding subscribe
subscribe-panics id es gone going fits =
    rw (send_all-fits (replayed id es) [] (omega arith))
      (unfold open_or_close register in rw (going, gone) refl)

pub subscribe-done :
    (id : Bytes) (es : ExecutionStream)
    → es.done ≡ true
    → length (replayed id es) ≤ capacity
    → subscribe id es
      ≡ returned
          (subscribed id [] es, record { channel = es.next_subscriber; unsubscribes = false })
unfolding subscribe
subscribe-done id es d fits =
    rw (send_all-fits (replayed id es) [] (omega arith)) (unfold open_or_close in ground arith)

pub done-IsWellFormed :
    (id : Bytes) (es : ExecutionStream)
    → IsWellFormed es
    → es.subscribers ≡ none
    → es.done ≡ true
    → IsWellFormed (subscribed id [] es)
done-IsWellFormed id es w gone d = record {
  numbered = w.numbered;
  counted = w.counted;
  bounded = w.bounded;
  distinct = rw (d, gone) tt;
  served = rw (d, gone) tt;
  finished = λ _. rw (d, gone) refl;
}
