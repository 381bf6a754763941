-- ===== src/Database.antt =====
-- The services' view of PostgreSQL: tables, a clock, and what the environment does to each statement.
-- The repositories under internal/ send one SQL statement for each call, which may take time and may fail.
pub mod Keeps
pub mod Calm
pub mod Rows
pub mod Triples
use kariz.Prelude.{ℕ, ◌+◌, ◌≡◌, refl, ◌⊎◌, inl, inr, Option, none, some, List, [], ◌∷◌, String}
use kariz.Models.Errors.{Error, wrapped}

-- A call's value or its error.
pub data Result {ℓ} (A : Type ℓ) : Type ℓ where
  ok : A → Result A
  err : Error → Result A

-- The time that a statement takes, and the error with which it fails.
pub record Latency : Type 0 where
  pub elapsed : ℕ
  pub fault : Option Error

-- `latencies` is the environment's choice for the statements to come; past its end they take no time and do
-- not fail.
pub record World (T : Type 0) : Type 0 where
  pub tables : T
  pub clock : ℕ
  pub latencies : List Latency

abbrev pub Exec : Type 0 → Type 0 → Type 0
Exec T A = World T → Result A × World T

abbrev pub wrap_error : {A : Type 0} → String → Result A → Result A
wrap_error context (ok a) = ok a
wrap_error context (err e) = err (wrapped context e)

-- `if err != nil`, and an answer that does not tell the error.
abbrev pub reply_error : {A : Type 0} → Error → Result A → Result A
reply_error x (ok a) = ok a
reply_error x (err e) = err x

abbrev pub value_or : {A : Type 0} → A → Result A → A
value_or d (ok a) = a
value_or d (err e) = d

module _ {T A : Type 0} where
  pub pure : A → Exec T A
  pure a w = (ok a, w)

  pub fail : Error → Exec T A
  fail e w = (err e, w)

  pub lift : Result A → Exec T A
  lift r w = (r, w)

  -- `if x == nil { return nil, err }`.
  pub require : Error → Option A → Exec T A
  require missing none w = (err missing, w)
  require missing (some a) w = (ok a, w)

  -- `if err != nil { return fmt.Errorf("context: %w", err) }`.
  infix 20 ◌or_wrap◌
  pub ◌or_wrap◌ : Exec T A → String → Exec T A
  (m or_wrap context) w = let r = m w in (wrap_error context r.0, r.1)

  infix 20 ◌or_reply◌
  pub ◌or_reply◌ : Exec T A → Error → Exec T A
  (m or_reply x) w = let r = m w in (reply_error x r.0, r.1)

  -- `v, _ := …`: a call whose error is ignored.
  pub or_default : A → Exec T A → Exec T A
  or_default a m w = let r = m w in (ok (value_or a r.0), r.1)

  -- An error that is only logged.
  pub logged : Exec T A → Exec T (Unit {0})
  logged m w = (ok tt, (m w).1)

unfoldable pub elapsed_of : List Latency → ℕ
elapsed_of [] = 0
elapsed_of (l ∷ ls) = l.elapsed

unfoldable pub fault_of : List Latency → Option Error
fault_of [] = none
fault_of (l ∷ ls) = l.fault

unfoldable pub later_of : List Latency → List Latency
later_of [] = []
later_of (l ∷ ls) = ls

module _ {T : Type 0} where
  -- `time.Now().UTC()`.
  pub time_now : Exec T ℕ
  time_now w = (ok w.clock, w)

  -- Time that passes elsewhere.
  unfoldable pub delay : ℕ → Exec T (Unit {0})
  delay n w = (ok tt, record w { clock = w.clock + n })

  abbrev pub elapse : World T → World T
  elapse w = record w { clock = w.clock + elapsed_of w.latencies; latencies = later_of w.latencies }

module _ {T A : Type 0} where
  abbrev pub outcome : String → Option Error → (ℕ → T → Result A × T) → Exec T A
  outcome context none sql w = let r = sql w.clock w.tables in (r.0, record w { tables = r.1 })
  outcome context (some e) sql w = (err (wrapped context e), w)

  -- One statement, given the time at which it runs, and the words with which the repository wraps
  -- its failure. A statement that fails leaves the tables alone.
  pub statement : String → (ℕ → T → Result A × T) → Exec T A
  statement context sql w = outcome context (fault_of w.latencies) sql (elapse w)

  pub statement-outcome :
      (context : String) (sql : ℕ → T → Result A × T) (w : World T)
      → statement context sql w ≡ outcome context (fault_of w.latencies) sql (elapse w)
  unfolding statement
  statement-outcome context sql w = refl

module _ {T A B : Type 0} where
  abbrev pub continue : Result A → (A → Exec T B) → Exec T B
  continue (ok a) f w = f a w
  continue (err e) f w = (err e, w)

  infixl 5 ◌>>=◌ ◌>>◌
  -- Opening this opens the other ways to build a call.
  unfoldable pub ◌>>=◌ : Exec T A → (A → Exec T B) → Exec T B
  unfolding pure fail lift require ◌or_wrap◌ ◌or_reply◌ or_default logged time_now delay statement
  ◌>>=◌ m f w = let r = m w in continue r.0 f r.1

  abbrev pub ◌>>◌ : Exec T A → Exec T B → Exec T B
  m >> n = m >>= λ _. n

-- The end of a statement that gives no rows; its failure is the given error as it stands.
abbrev pub ended : Option Error → Result (Unit {0})
ended none = ok tt
ended (some e) = err e

-- `if err != nil { return err }` in a transaction, with the deferred rollback: its tables are as before.
abbrev pub rolled_back : {T A : Type 0} → T → Result A → World T → Result A × World T
rolled_back before (ok a) w = (ok a, w)
rolled_back before (err e) w = (err e, record w { tables = before })

module _ {T : Type 0} where
  -- `tx.Commit()`.
  pub commit : Exec T (Unit {0})
  commit w = (ended (fault_of w.latencies), elapse w)

  abbrev pub unrolled : Exec T (Unit {0}) → Exec T (Unit {0})
  unrolled body = statement "begin transaction" (λ now t. (ok tt, t)) >> body >> commit

  -- `BeginTxx`, the statements, and `Commit`.
  unfoldable pub transaction : Exec T (Unit {0}) → Exec T (Unit {0})
  unfolding commit
  transaction body w = let r = unrolled body w in rolled_back w.tables r.0 r.1

pub Result-cases :
    {A : Type 0} (r : Result A) → ((a : A) × (r ≡ ok a)) ⊎ ((e : Error) × (r ≡ err e))
Result-cases (ok a) = inl (a, refl)
Result-cases (err e) = inr (e, refl)
