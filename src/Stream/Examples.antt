-- ===== src/Stream/Examples.antt =====
-- Tests and instances for internal/stream/manager.go.
use kariz.Prelude.{
  ℕ, ◌≡◌, ◌<◌, ◌↔◌, refl, true, not, some, List, [], ◌∷◌, ◌++◌, codes, arith, eq_iff, length,
  contains, if◌then◌else◌,
}
use kariz.Models.Execution.{OutputChunk, completed, failed}
use kariz.Strconv.{itoa, atoi}
use kariz.Stream.Channel.{returned, blocked, panicked, capacity, send_all}
use kariz.Stream.{
  ExecutionStream, Subscription, new_stream, active, replay_from, subscribe, publish, complete,
  complete_event, for_each, unsubscribe, cleanup,
}
use kariz.Stream.Invariant.{
  IsWellFormed, published, new_stream-IsWellFormed, published-IsWellFormed, delivered,
}
use kariz.Stream.Lifecycle.{shut, completed_stream, complete-open}
use kariz.Stream.Replay.{
  requested, subscribed, subscribed-IsWellFormed, subscribe-requested, subscribe_blocks,
}
use kariz.Stream.Delivery.{
  publish_all, outputs, publish_all-delivers, complete-closes, complete_absorbs,
}
use kariz.Stream.Manager.{
  Manager, new_manager, with_new, publish_to, get_or_create_stream, Call, looks_up, publishes,
  subscribes, unsubscribes, cleans, step, run,
}
use kariz.Stream.Manager.Sound.{
  new_manager-IsSound, new_manager-IsSteady, with_new-IsSound, with_new-IsSteady,
}
use kariz.Stream.Manager.Late.{late_subscribe-panics}
use kariz.Stream.Manager.Calls.{Safe, run-Safe, publish_to-separate}

abbrev hello : OutputChunk
hello = record { stream = "stdout"; text = "hello"; timestamp = 0 }

-- Two chunks were published, and nobody has subscribed.
abbrev two_events : ExecutionStream
two_events = published hello (published hello new_stream)

two_events-IsWellFormed : IsWellFormed two_events
unfolding new_stream
two_events-IsWellFormed =
    published-IsWellFormed hello (published hello new_stream)
      (published-IsWellFormed hello new_stream new_stream-IsWellFormed refl) refl

-- A client that has seen event 1 asks again.
subscribe-requested_example :
    (es' : ExecutionStream) × (sub : Subscription) × (subscribe (codes "1") two_events
      ≡ returned (es', sub))
    × IsWellFormed es'
    × ((es'.channels sub.channel).buffer ≡ requested (codes "1") two_events.events)
    × ((es'.channels sub.channel).closed ≡ two_events.done)
    × (contains sub.channel (active es'.subscribers) ≡ not two_events.done)
unfolding new_stream itoa atoi
subscribe-requested_example =
    subscribe-requested (codes "1") [] two_events two_events-IsWellFormed (omega arith) refl
      (omega arith)

subscribe_blocks_example :
    (subscribe [] two_events ≡ blocked) ↔ (capacity < length (requested [] two_events.events))
unfolding new_stream
subscribe_blocks_example =
    subscribe_blocks [] [] two_events two_events-IsWellFormed (omega arith) refl

-- One client is listening.
abbrev heard : ExecutionStream
heard = subscribed [] [] new_stream

heard-IsWellFormed : IsWellFormed heard
unfolding new_stream replay_from
heard-IsWellFormed =
    subscribed-IsWellFormed [] [] new_stream new_stream-IsWellFormed refl (omega arith)

publish_all-delivers_example :
    (es' : ExecutionStream) × (publish_all (hello ∷ hello ∷ []) heard ≡ returned es')
    × ((es'.channels 0).buffer
        ≡ (heard.channels 0).buffer ++ outputs heard.next_id (hello ∷ hello ∷ []))
unfolding new_stream replay_from
publish_all-delivers_example =
    publish_all-delivers (hello ∷ hello ∷ []) 0 heard heard-IsWellFormed refl refl (omega arith)

complete-closes_example :
    (es' : ExecutionStream) × (complete completed heard ≡ returned es')
    × ((c : ℕ)
        → es'.channels c ≡ (
            if contains c (active heard.subscribers)
            then shut (delivered (complete_event heard.next_id completed) (heard.channels c))
            else heard.channels c))
    × (es'.done ≡ true)
    × (active es'.subscribers ≡ [])
unfolding new_stream
complete-closes_example = complete-closes completed heard heard-IsWellFormed refl

complete_absorbs_example :
    (complete failed (completed_stream completed heard)
      ≡ returned (completed_stream completed heard))
    × (publish hello (completed_stream completed heard)
        ≡ returned (completed_stream completed heard))
unfolding new_stream
complete_absorbs_example =
    complete_absorbs completed failed hello heard (completed_stream completed heard)
      (complete-open completed heard heard-IsWellFormed refl)

-- One client reads along until the end; another looks the stream up before `Cleanup` drops it, and subscribes afterwards.
abbrev calls : List Call
calls =
    looks_up "a"
    ∷ subscribes 0 []
    ∷ publishes 0 hello
    ∷ unsubscribes 0 0
    ∷ looks_up "a"
    ∷ cleans "a"
    ∷ subscribes 0 []
    ∷ []

run-Safe_example : Safe calls new_manager (run calls new_manager)
run-Safe_example = run-Safe calls new_manager new_manager-IsSteady

late_panics : run calls new_manager ≡ panicked
unfolding run step subscribe publish new_stream new_manager replay_from send_all for_each
    unsubscribe cleanup
late_panics = refl

late_subscribe-panics_example :
    ((get_or_create_stream "a" (with_new "a" new_manager)).0 ≡ 0)
    × (run (looks_up "a" ∷ cleans "a" ∷ subscribes 0 [] ∷ []) (with_new "a" new_manager) ≡ panicked)
unfolding new_manager new_stream
late_subscribe-panics_example =
    late_subscribe-panics "a" 0 [] (with_new "a" new_manager)
      (with_new-IsSteady "a" new_manager refl new_manager-IsSteady) refl refl

publish_to-separate_example :
    (m' : Manager) × (publish_to "b" hello (with_new "a" new_manager) ≡ returned m')
    × (m'.streams "a" ≡ some 0)
    × (m'.heap 0 ≡ (with_new "a" new_manager).heap 0)
unfolding new_manager
publish_to-separate_example =
    publish_to-separate "b" "a" hello (with_new "a" new_manager) 0
      (with_new-IsSound "a" new_manager refl new_manager-IsSound) (ground (arith, eq_iff "a" "b"))
      refl
