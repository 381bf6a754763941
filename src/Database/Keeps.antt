-- ===== src/Database/Keeps.antt =====
-- Properties of the tables that a chain of statements keeps, whether it succeeds or fails.
use kariz.Prelude.{ℕ, String, Option, none, some}
use kariz.Models.Errors.{Error}
use kariz.Database.{
  Result, ok, err, World, Exec, ◌>>=◌, pure, fail, lift, require, ◌or_wrap◌, logged, time_now,
  delay, statement, continue, outcome, fault_of, elapse,
}

-- After the call the tables still have the property.
pub record Keeps {T A : Type 0} (P : T → Type 0) (m : Exec T A) : Type 0 where
  pub holds : (w : World T) → P w.tables → P (m w).1.tables

module _ {T A : Type 0} {P : T → Type 0} where
  pub Keeps-pure : (a : A) → Keeps P (pure a)
  unfolding pure
  Keeps-pure a = record { holds = λ w h. h }

  pub Keeps-fail : (e : Error) → Keeps P (fail {A = A} e)
  unfolding fail
  Keeps-fail e = record { holds = λ w h. h }

  pub Keeps-lift : (r : Result A) → Keeps P (lift r)
  unfolding lift
  Keeps-lift r = record { holds = λ w h. h }

  pub Keeps-require : (e : Error) (o : Option A) → Keeps P (require e o)
  unfolding require
  Keeps-require e none = record { holds = λ w h. h }
  Keeps-require e (some a) = record { holds = λ w h. h }

  pub Keeps-or_wrap : (m : Exec T A) (context : String) → Keeps P m → Keeps P (m or_wrap context)
  unfolding ◌or_wrap◌
  Keeps-or_wrap m context k = record { holds = k.holds }

  pub Keeps-logged : (m : Exec T A) → Keeps P m → Keeps P (logged m)
  unfolding logged
  Keeps-logged m k = record { holds = k.holds }

  outcome-keeps :
      (context : String) (fault : Option Error) (sql : ℕ → T → Result A × T) (w : World T)
      → ((now : ℕ) (t : T) → P t → P (sql now t).1)
      → P w.tables
      → P (outcome context fault sql w).1.tables
  outcome-keeps context none sql w k h = k w.clock w.tables h
  outcome-keeps context (some e) sql w k h = h

  -- A statement keeps what its SQL keeps, at whatever time it runs.
  pub Keeps-statement :
      (context : String) (sql : ℕ → T → Result A × T)
      → ((now : ℕ) (t : T) → P t → P (sql now t).1)
      → Keeps P (statement context sql)
  unfolding statement
  Keeps-statement context sql k = record {
    holds = λ w h. outcome-keeps context (fault_of w.latencies) sql (elapse w) k h;
  }

module _ {T : Type 0} {P : T → Type 0} where
  pub Keeps-time_now : Keeps P time_now
  unfolding time_now
  Keeps-time_now = record { holds = λ w h. h }

  pub Keeps-delay : (n : ℕ) → Keeps P (delay n)
  unfolding delay
  Keeps-delay n = record { holds = λ w h. h }

module _ {T A B : Type 0} {P : T → Type 0} where
  continue-keeps :
      (r : Result A) (f : A → Exec T B) (w : World T)
      → ((a : A) → Keeps P (f a))
      → P w.tables
      → P (continue r f w).1.tables
  continue-keeps (ok a) f w kf h = (kf a).holds w h
  continue-keeps (err e) f w kf h = h

  pub Keeps-bind :
      (m : Exec T A) (f : A → Exec T B) → Keeps P m → ((a : A) → Keeps P (f a)) → Keeps P (m >>= f)
  unfolding ◌>>=◌
  Keeps-bind m f km kf = record {
    holds = λ w h. continue-keeps (m w).0 f (m w).1 kf (km.holds w h);
  }

pub ruleset keeps_rules = (
  Keeps-pure, Keeps-fail, Keeps-lift, Keeps-require, Keeps-or_wrap, Keeps-logged, Keeps-time_now,
  Keeps-delay, Keeps-bind,
)
