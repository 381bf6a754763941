-- ===== src/Stream/FanOut.antt =====
-- The loops over the subscribers of internal/stream/manager.go treat each channel once, on its own.
use mathlib.Core.Path.{fun_ext}
use kariz.Prelude.{
  ℕ, ◌≡◌, refl, ap, ◌∙◌, false, List, [], ◌∷◌, arith, All, if◌then◌else◌, update, contains,
}
use kariz.Stream.Channel.{Outcome, returned, Chan}
use kariz.Stream.{for_each}

abbrev pub Distinct : List ℕ → Type 0
Distinct [] = Unit
Distinct (c ∷ subs) = (contains c subs ≡ false) × Distinct subs

abbrev pub AreOpen : (ℕ → Chan) → List ℕ → Type 0
AreOpen chans subs = All (λ c. (chans c).closed ≡ false) subs

AreOpen-update :
    (chans : ℕ → Chan) (k : ℕ) (ch : Chan) (subs : List ℕ)
    → contains k subs ≡ false
    → AreOpen chans subs
    → AreOpen (update chans k ch) subs
AreOpen-update chans k ch [] h o = tt
AreOpen-update chans k ch (c ∷ subs) h o =
    (ground arith, AreOpen-update chans k ch subs (ground arith) o.1)

-- A body that succeeds on open channels, with the result `f`, changes the listed channels to their
-- `f` and no other.
pub for_each-eq :
    (body : Chan → Outcome Chan) (f : Chan → Chan)
    → ((ch : Chan) → ch.closed ≡ false → body ch ≡ returned (f ch))
    → (subs : List ℕ) (chans : ℕ → Chan) → Distinct subs
    → AreOpen chans subs
    → for_each body subs chans ≡ returned (λ j. if contains j subs then f (chans j) else chans j)
unfolding for_each
for_each-eq body f ok [] chans d o = refl
for_each-eq body f ok (c ∷ subs) chans d o = rw (ok (chans c) o.0) (
    for_each-eq body f ok subs (update chans c (f (chans c))) d.1
      (AreOpen-update chans c (f (chans c)) subs d.0 o.1)
    ∙ ap returned (fun_ext λ j. ground arith))
