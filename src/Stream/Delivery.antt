-- ===== src/Stream/Delivery.antt =====
-- What the subscribers of internal/stream/manager.go receive.
use mathlib.Core.List.{append-nil, append_assoc}
use kariz.Prelude.{
  ℕ, ◌+◌, ◌≤◌, ◌≡◌, refl, true, false, List, [], ◌∷◌, ◌++◌, arith, length, length-append, ltb,
  if◌then◌else◌, contains,
}
use kariz.Models.Execution.{ExecutionStatus, OutputChunk, SseEvent}
use kariz.Stream.Channel.{Outcome, returned, ◌>>=◌, capacity}
use kariz.Stream.Invariant.{
  IsWellFormed, delivered, published, publish-open, published-IsWellFormed,
}
use kariz.Stream.Lifecycle.{shut, completed_stream, complete-open}
use kariz.Stream.{ExecutionStream, active, publish, output_event, complete, complete_event}

-- The events of consecutive chunks.
abbrev pub outputs : ℕ → List OutputChunk → List SseEvent
outputs n [] = []
outputs n (c ∷ cs) = output_event n c ∷ outputs (n + 1) cs

-- The calls of `captureOutput`, one for each chunk.
pub publish_all : List OutputChunk → ExecutionStream → Outcome ExecutionStream
publish_all [] es = returned es
publish_all (chunk ∷ chunks) es = do es' ← publish chunk es; publish_all chunks es'

-- A subscriber whose channel has room for all the chunks is sent all of them, in order, with
-- consecutive IDs, also if its reader takes none of them.
pub publish_all-delivers :
    (chunks : List OutputChunk) (c : ℕ) (es : ExecutionStream)
    → IsWellFormed es
    → es.done ≡ false
    → contains c (active es.subscribers) ≡ true
    → length (es.channels c).buffer + length chunks ≤ capacity
    → (es' : ExecutionStream) × (publish_all chunks es ≡ returned es')
      × ((es'.channels c).buffer ≡ (es.channels c).buffer ++ outputs es.next_id chunks)
unfolding publish_all
publish_all-delivers [] c es w live member room = (es, refl, rw append-nil)
publish_all-delivers (chunk ∷ chunks) c es w live member room =
    let event = output_event es.next_id chunk in
    let buffer = (es.channels c).buffer in
    let n = length-append buffer (event ∷ []) in
    let fits : ltb (length buffer) capacity ≡ true = ground arith in
    let sent : ((published chunk es).channels c).buffer ≡ buffer ++ event ∷ [] = ground arith in
    let rest =
      publish_all-delivers chunks c (published chunk es) (published-IsWellFormed chunk es w live)
        live member (rw sent (omega arith)) in
    (rest.0, rw (publish-open chunk es w live) rest.1, rw (rest.2, sent, append_assoc))

-- `Complete` closes the channel of each subscriber, behind the completion event if there is room for it,
-- leaves every other channel, and forgets the subscribers.
pub complete-closes :
    (status : ExecutionStatus) (es : ExecutionStream)
    → IsWellFormed es
    → es.done ≡ false
    → (es' : ExecutionStream) × (complete status es ≡ returned es')
      × ((c : ℕ)
          → es'.channels c ≡ (
              if contains c (active es.subscribers)
              then shut (delivered (complete_event es.next_id status) (es.channels c))
              else es.channels c))
      × (es'.done ≡ true)
      × (active es'.subscribers ≡ [])
complete-closes status es w d =
    (completed_stream status es, complete-open status es w d, (λ c. refl), refl, refl)

done-complete :
    (status : ExecutionStatus) (es es' : ExecutionStream)
    → complete status es ≡ returned es'
    → es'.done ≡ true
unfolding complete
done-complete status es es' h = ground arith

-- Once an execution is complete, further chunks and completions change nothing.
pub complete_absorbs :
    (status later : ExecutionStatus) (chunk : OutputChunk) (es es' : ExecutionStream)
    → complete status es ≡ returned es'
    → (complete later es' ≡ returned es') × (publish chunk es' ≡ returned es')
complete_absorbs status later chunk es es' h =
    let d = done-complete status es es' h in (unfold complete in rw d, unfold publish in rw d)
