-- ===== src/Database/Calm.antt =====
-- Runs of statements in which none fails; each may take its time.
use kariz.Prelude.{ℕ, ◌≡◌, refl, String, none, List, [], ◌∷◌, All}
use kariz.Database.{Result, Latency, World, statement, fault_of, later_of, elapse}

abbrev pub AreCalm : List Latency → Type 0
AreCalm = All (λ l. l.fault ≡ none)

fault_of-calm : (ls : List Latency) → AreCalm ls → fault_of ls ≡ none
unfolding fault_of
fault_of-calm [] h = refl
fault_of-calm (l ∷ ls) h = h.0

pub later_of-calm : (ls : List Latency) → AreCalm ls → AreCalm (later_of ls)
unfolding later_of
later_of-calm [] h = tt
later_of-calm (l ∷ ls) h = h.1

-- The SQL runs, at the time that the statement reaches the database.
pub statement-calm :
    {T A : Type 0} (context : String) (sql : ℕ → T → Result A × T) (w : World T)
    → AreCalm w.latencies
    → statement context sql w ≡ (
      (sql (elapse w).clock w.tables).0,
      record (elapse w) { tables = (sql (elapse w).clock w.tables).1 },
    )
unfolding statement
statement-calm context sql w h = rw (fault_of-calm w.latencies h)
