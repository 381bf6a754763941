-- ===== src/Stream/Channel.antt =====
-- The Go channels of internal/stream/manager.go: buffered, with room for 256 events.
use mathlib.Core.List.{append-nil, append_assoc}
use kariz.Prelude.{
  ℕ, ◌+◌, ◌≤◌, ◌<◌, ◌≡◌, Bool, true, false, inl, inr, Bool-cases, List, [], ◌∷◌, ◌++◌, arith,
  length, length-append, ltb, if◌then◌else◌,
}
use kariz.Models.Execution.{SseEvent}

-- `blocked` is a send that waits for a reader which the code has not handed the channel to yet.
pub data Outcome {ℓ} (A : Type ℓ) : Type ℓ where
  returned : A → Outcome A
  blocked : Outcome A
  panicked : Outcome A

infixl 5 ◌>>=◌
abbrev pub ◌>>=◌ {ℓ κ} : {A : Type ℓ} {B : Type κ} → Outcome A → (A → Outcome B) → Outcome B
returned a >>= f = f a
blocked >>= f = blocked
panicked >>= f = panicked

pub record Chan : Type 0 where
  pub buffer : List SseEvent
  pub closed : Bool

abbrev pub capacity : ℕ
capacity = 256

abbrev pub empty_chan : Chan
empty_chan = record { buffer = []; closed = false }

abbrev pub put : SseEvent → Chan → Chan
put e ch = record ch { buffer = ch.buffer ++ e ∷ [] }

-- `ch <- e`, where nobody else has the channel.
abbrev pub send : SseEvent → Chan → Outcome Chan
send e ch =
    if ch.closed
    then panicked
    else if ltb (length ch.buffer) capacity
    then returned (put e ch)
    else blocked

-- The replay loop of `Subscribe`.
unfoldable pub send_all : List SseEvent → Chan → Outcome Chan
send_all [] ch = returned ch
send_all (e ∷ es) ch = do ch' ← send e ch; send_all es ch'

-- `select { case ch <- e: default: }`.
abbrev pub try_send : SseEvent → Chan → Outcome Chan
try_send e ch =
    if ch.closed
    then panicked
    else if ltb (length ch.buffer) capacity
    then returned (put e ch)
    else returned ch

abbrev pub close : Chan → Outcome Chan
close ch = if ch.closed then panicked else returned (record ch { closed = true })

abbrev pub holding : List SseEvent → Chan
holding buffer = record { buffer = buffer; closed = false }

-- What fits the channel is sent.
pub send_all-fits :
    (xs buffer : List SseEvent)
    → length buffer + length xs ≤ capacity
    → send_all xs (holding buffer) ≡ returned (holding (buffer ++ xs))
unfolding send_all
send_all-fits [] buffer l = rw append-nil
send_all-fits (x ∷ xs) buffer l =
    let n = length-append buffer (x ∷ []) in
    let e : ltb (length buffer) capacity ≡ true = ground arith in
    rw (e, ← append_assoc buffer (x ∷ []) xs) (send_all-fits xs (buffer ++ x ∷ []) (omega arith))

-- What does not fit waits.
pub send_all-blocks :
    (xs buffer : List SseEvent)
    → length buffer ≤ capacity
    → capacity < length buffer + length xs
    → send_all xs (holding buffer) ≡ blocked
unfolding send_all
send_all-blocks [] buffer r l = absurd (omega arith)
send_all-blocks (x ∷ xs) buffer r l = elim (Bool-cases (ltb (length buffer) capacity)) [
  | inl e ↦
      let n = length-append buffer (x ∷ []) in
      rw e (send_all-blocks xs (buffer ++ x ∷ []) (ground arith) (omega arith))
  | inr e ↦ rw e
]
