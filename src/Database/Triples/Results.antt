-- ===== src/Database/Triples/Results.antt =====
-- What the ways to build a call make of a postcondition of its result.
use kariz.Prelude.{ℕ, ◌≡◌, refl, String, Option, none, some}
use kariz.Models.Errors.{Error, wrapped}
use kariz.Database.{
  Result, ok, err, World, require, value_or, statement, outcome, fault_of, elapse, wrap_error,
  reply_error,
}

abbrev pub Post : {T A : Type 0} → (T → Type 0) → (A → T → Type 0) → Result A → T → Type 0
Post E Q (ok a) t = Q a t
Post E Q (err e) t = E t

-- The two ends of a statement.
module _ {T A : Type 0} where
  outcome-ends :
      (context : String) (fault : Option Error) (sql : ℕ → T → Result A × T) (w : World T)
      (G : Result A → World T → Type 0)
      → G (sql w.clock w.tables).0 (record w { tables = (sql w.clock w.tables).1 })
      → ((e : Error) → G (err e) w)
      → G (outcome context fault sql w).0 (outcome context fault sql w).1
  outcome-ends context none sql w G done failed = done
  outcome-ends context (some e) sql w G done failed = failed (wrapped context e)

  pub statement-ends :
      (context : String) (sql : ℕ → T → Result A × T) (w : World T)
      (G : Result A → World T → Type 0)
      → G
          (sql (elapse w).clock w.tables).0
          (record (elapse w) { tables = (sql (elapse w).clock w.tables).1 })
      → ((e : Error) → G (err e) (elapse w))
      → G (statement context sql w).0 (statement context sql w).1
  unfolding statement
  statement-ends context sql w G done failed =
      outcome-ends context (fault_of w.latencies) sql (elapse w) G done failed

-- What holds of the results, for the rules below.
module _ {T A : Type 0} (E : T → Type 0) (Q : A → T → Type 0) where
  pub lift_post :
      (r : Result A) (t : T)
      → ((a : A) → r ≡ ok a → Q a t)
      → (((e : Error) → r ≡ err e → E t))
      → Post E Q r t
  lift_post (ok a) t q e = q a refl
  lift_post (err x) t q e = e x refl

  pub outcome_post :
      (context : String) (fault : Option Error) (sql : ℕ → T → Result A × T) (w : World T)
      → Post E Q (sql w.clock w.tables).0 (sql w.clock w.tables).1
      → E w.tables
      → Post E Q (outcome context fault sql w).0 (outcome context fault sql w).1.tables
  outcome_post context none sql w q e = q
  outcome_post context (some x) sql w q e = e

  pub wrap_post :
      (context : String) (r : Result A) (t : T) → Post E Q r t → Post E Q (wrap_error context r) t
  wrap_post context (ok a) t q = q
  wrap_post context (err e) t q = q

  pub reply_post : (x : Error) (r : Result A) (t : T) → Post E Q r t → Post E Q (reply_error x r) t
  reply_post x (ok a) t q = q
  reply_post x (err e) t q = q

  pub require_post :
      (x : Error) (o : Option A) (w : World T)
      → ((a : A) → o ≡ some a → Q a w.tables)
      → E w.tables
      → Post E Q (require x o w).0 (require x o w).1.tables
  unfolding require
  require_post x none w q e = e
  require_post x (some a) w q e = q a refl

  pub known_post :
      (F : Type 0) (r : Result A) (t : T) → F → Post E Q r t → Post E (λ a t. F × Q a t) r t
  known_post F (ok a) t f q = (f, q)
  known_post F (err e) t f q = q

  pub default_post :
      (d : A) (r : Result A) (t : T) → (E t → Q d t) → Post E Q r t → Q (value_or d r) t
  default_post d (ok a) t h q = q
  default_post d (err e) t h q = h q
