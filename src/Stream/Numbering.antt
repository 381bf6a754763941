-- ===== src/Stream/Numbering.antt =====
-- Consecutive event IDs, and what the replay loop of `Subscribe` finds in a buffer that has them.
use kariz.Prelude.{
  ℕ, zero, suc, ◌+◌, ◌-◌, ◌≤◌, ◌<◌, ◌^◌, ◌≡◌, refl, ap, Bool, true, List, [], ◌∷◌, ◌++◌, arith,
  length, drop, select, inl, inr, Bool-cases, ℤ, pos, lt_int,
}
use kariz.Models.Execution.{SseEvent}
use kariz.Strconv.{itoa, atoi, atoi_value}
use kariz.Strconv.RoundTrip.{atoi-itoa}
use kariz.Stream.{replay_index}

-- The events are numbered `first`, `first + 1`, and so on.
abbrev pub Numbered : ℕ → List SseEvent → Type 0
Numbered first [] = Unit
Numbered first (e ∷ es) = (e.id ≡ itoa first) × Numbered (first + 1) es

pub Numbered-append :
    (first : ℕ) (es : List SseEvent) (e : SseEvent)
    → Numbered first es
    → e.id ≡ itoa (first + length es)
    → Numbered first (es ++ e ∷ [])
Numbered-append first [] e h last = let z : first + 0 ≡ first = omega arith in (rw z at last, tt)
Numbered-append first (x ∷ es) e h last =
    let z : first + suc (length es) ≡ first + 1 + length es = omega arith in
    (h.0, Numbered-append (first + 1) es e h.1 (rw z at last))

pub Numbered-drop :
    (n first : ℕ) (es : List SseEvent)
    → n ≤ length es
    → Numbered first es
    → Numbered (first + n) (drop n es)
Numbered-drop zero first es le h = let z : first + 0 ≡ first = omega arith in rw z h
Numbered-drop (suc n) first [] le h = tt
Numbered-drop (suc n) first (e ∷ es) le h =
    let z : first + suc n ≡ first + 1 + n = omega arith in
    rw z (Numbered-drop n (first + 1) es (omega arith) h.1)

-- The event comes after the ID `z`, by the test of the replay loop.
abbrev pub comes_after : ℤ → SseEvent → Bool
comes_after z e = lt_int z (atoi_value (atoi e.id))

comes_after_numbered :
    (z : ℤ) (e : SseEvent) (n : ℕ) → e.id ≡ itoa n → n < 2 ^ 63 → comes_after z e ≡ lt_int z (pos n)
comes_after_numbered z e n h lt = rw (h, atoi-itoa n lt)

select_all_after :
    (z : ℤ) (first : ℕ) (es : List SseEvent)
    → Numbered first es
    → first + length es ≤ 2 ^ 63
    → lt_int z (pos first) ≡ true
    → select (comes_after z) es ≡ es
select_all_after z first [] h lt after = refl
select_all_after z first (e ∷ es) h lt after =
    rw (comes_after_numbered z e first h.0 (omega arith), after)
      (ap (◌∷◌ e) (select_all_after z (first + 1) es h.1 (omega arith) (ground arith)))

drop-nil : (n : ℕ) → drop {A = SseEvent} n [] ≡ []
drop-nil zero = refl
drop-nil (suc n) = refl

-- Once an event comes after `z`, so do all that follow it.
select_from :
    (z : ℤ) (first : ℕ) (x : SseEvent) (es : List SseEvent)
    → Numbered first (x ∷ es)
    → first + length (x ∷ es) ≤ 2 ^ 63
    → comes_after z x ≡ true
    → select (comes_after z) es ≡ es
select_from z first x es h lt after =
    let e = comes_after_numbered z x first h.0 (omega arith) in
    select_all_after z (first + 1) es h.1 (omega arith) (ground arith)

-- From position `at` on, what the loop leaves to replay is what comes after `z`.
pub drop-replay_index :
    (z : ℤ) (total at first : ℕ) (es : List SseEvent)
    → Numbered first es
    → first + length es ≤ 2 ^ 63
    → total ≡ at + length es
    → (at ≤ replay_index z total at total es)
      × (drop (replay_index z total at total es - at) es ≡ select (comes_after z) es)
unfolding replay_index
drop-replay_index z total at first [] h lt e = (omega arith, drop-nil _)
drop-replay_index z total at first (x ∷ es) h lt e = elim (Bool-cases (comes_after z x)) [
  | inl after ↦
      let stay : at - at ≡ 0 = omega arith in
      rw after (omega arith, rw (stay, select_from z first x es h lt after))
  | inr before ↦
      let ih = drop-replay_index z total (at + 1) (first + 1) es h.1 (omega arith) (omega arith) in
      let step : replay_index z total (at + 1) total es - at
          ≡ suc (replay_index z total (at + 1) total es - (at + 1)) =
        omega arith in
      rw before (omega arith, rw (step) ih.1)
]
