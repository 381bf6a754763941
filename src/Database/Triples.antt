-- ===== src/Database/Triples.antt =====
-- What a call leaves, by how it ends: a postcondition of its value, and one of its failure.
mod Results
pub use Results.{Post, statement-ends}
use kariz.Prelude.{
  ℕ, ◌≡◌, refl, subst, String, Bool, true, false, if◌then◌else◌, Option, none, some,
}
use kariz.Models.Errors.{Error, wrapped}
use kariz.Database.{
  Result, ok, err, World, Exec, ◌>>=◌, pure, fail, lift, require, ◌or_wrap◌, ◌or_reply◌, or_default,
  value_or, time_now, statement, continue, outcome, fault_of, elapse, wrap_error, reply_error,
  transaction, unrolled, rolled_back, commit, ended,
}
use kariz.Database.Triples.Results.{
  lift_post, outcome_post, wrap_post, reply_post, require_post, known_post, default_post,
}

-- From tables with P, the call ends with a value and Q, or with an error and E.
pub record Ensures {T A : Type 0} (P E : T → Type 0) (Q : A → T → Type 0) (m : Exec T A)
    : Type 0 where
  pub run : (w : World T) → P w.tables → Post E Q (m w).0 (m w).1.tables

module _ {T A : Type 0} {P E : T → Type 0} {Q : A → T → Type 0} where
  -- What holds after a call that gave a value.
  pub Ensures-answer :
      (m : Exec T A) (w : World T) (a : A)
      → Ensures P E Q m
      → P w.tables
      → (m w).0 ≡ ok a
      → Q a (m w).1.tables
  Ensures-answer m w a k p e = subst (λ r. Post E Q r (m w).1.tables) e (k.run w p)

  -- A fact known before is known after.
  pub Ensures-known :
      {F : Type 0} (m : Exec T A) → F → Ensures P E Q m → Ensures P E (λ a t. F × Q a t) m
  Ensures-known {F} m f k = record {
    run = λ w p. known_post E Q F (m w).0 (m w).1.tables f (k.run w p);
  }

  -- A fact of the precondition that says nothing of the tables.
  pub Ensures-fact :
      (F : Type 0) (m : Exec T A) → (F → Ensures P E Q m) → Ensures (λ t. F × P t) E Q m
  Ensures-fact F m k = record { run = λ w p. (k p.0).run w p.1 }

  branches_post :
      (b c : Bool) (m n : Exec T A)
      → c ≡ b
      → (c ≡ true → Ensures P E Q m)
      → (c ≡ false → Ensures P E Q n)
      → Ensures P E Q (if b then m else n)
  branches_post true c m n e km kn = km e
  branches_post false c m n e km kn = kn e

  pub Ensures-if :
      (b : Bool) (m n : Exec T A)
      → (b ≡ true → Ensures P E Q m)
      → (b ≡ false → Ensures P E Q n)
      → Ensures P E Q (if b then m else n)
  Ensures-if b m n = branches_post b b m n refl

  pub Ensures-from :
      {R : T → Type 0} (m : Exec T A) → ((t : T) → R t → P t) → Ensures P E Q m → Ensures R E Q m
  Ensures-from m h k = record { run = λ w r. k.run w (h w.tables r) }

  pub Ensures-pure : (a : A) → ((t : T) → P t → Q a t) → Ensures P E Q (pure a)
  unfolding pure
  Ensures-pure a h = record { run = λ w p. h w.tables p }

  pub Ensures-fail : (e : Error) → ((t : T) → P t → E t) → Ensures P E Q (fail e)
  unfolding fail
  Ensures-fail e h = record { run = λ w p. h w.tables p }

  pub Ensures-lift :
      (r : Result A)
      → ((a : A) (t : T) → P t → r ≡ ok a → Q a t)
      → ((t : T) → P t → E t)
      → Ensures P E Q (lift r)
  unfolding lift
  Ensures-lift r q e = record {
    run = λ w p. lift_post E Q r w.tables (λ a. q a w.tables p) λ _ _. e w.tables p;
  }

  -- A statement may fail before it does anything.
  pub Ensures-statement :
      (context : String) (sql : ℕ → T → Result A × T)
      → ((now : ℕ) (t : T) → P t → Post E Q (sql now t).0 (sql now t).1)
      → ((t : T) → P t → E t)
      → Ensures P E Q (statement context sql)
  unfolding statement
  Ensures-statement context sql q e = record {
    run = λ w p.
        outcome_post E Q context (fault_of w.latencies) sql (elapse w)
          (q (elapse w).clock w.tables p) (e w.tables p);
  }

  pub Ensures-or_wrap :
      (m : Exec T A) (context : String) → Ensures P E Q m → Ensures P E Q (m or_wrap context)
  unfolding ◌or_wrap◌
  Ensures-or_wrap m context k = record {
    run = λ w p. wrap_post E Q context (m w).0 (m w).1.tables (k.run w p);
  }

  pub Ensures-or_reply : (m : Exec T A) (x : Error) → Ensures P E Q m → Ensures P E Q (m or_reply x)
  unfolding ◌or_reply◌
  Ensures-or_reply m x k = record {
    run = λ w p. reply_post E Q x (m w).0 (m w).1.tables (k.run w p);
  }

  -- A row that is there, and a row that is not.
  pub Ensures-require :
      (x : Error) (o : Option A)
      → ((a : A) (t : T) → P t → o ≡ some a → Q a t)
      → ((t : T) → P t → E t)
      → Ensures P E Q (require x o)
  Ensures-require x o q e = record {
    run = λ w p. require_post E Q x o w (λ a. q a w.tables p) (e w.tables p);
  }

  pub Ensures-or_default :
      {F : T → Type 0} (d : A) (m : Exec T A)
      → Ensures P E Q m
      → ((t : T) → E t → Q d t)
      → Ensures P F Q (or_default d m)
  unfolding or_default
  Ensures-or_default d m k h = record {
    run = λ w p. default_post E Q d (m w).0 (m w).1.tables (h (m w).1.tables) (k.run w p);
  }

module _ {T A B : Type 0} (E : T → Type 0) (R : A → T → Type 0) (Q : B → T → Type 0) where
  continue_post :
      (r : Result A) (f : A → Exec T B) (w : World T)
      → ((a : A) → Ensures (R a) E Q (f a))
      → Post E R r w.tables
      → Post E Q (continue r f w).0 (continue r f w).1.tables
  continue_post (ok a) f w k p = (k a).run w p
  continue_post (err e) f w k p = p

module _ {T A B : Type 0} {P E : T → Type 0} {R : A → T → Type 0} {Q : B → T → Type 0} where
  pub Ensures-bind :
      (m : Exec T A) (f : A → Exec T B)
      → Ensures P E R m
      → ((a : A) → Ensures (R a) E Q (f a))
      → Ensures P E Q (m >>= f)
  unfolding ◌>>=◌
  Ensures-bind m f km kf = record {
    run = λ w p. continue_post E R Q (m w).0 f (m w).1 kf (km.run w p);
  }

module _ {T : Type 0} {P E : T → Type 0} where
  pub Ensures-time_now : Ensures P E (λ now. P) time_now
  unfolding time_now
  Ensures-time_now = record { run = λ w p. p }

abbrev pub Anything : {T : Type 0} → T → Type 0
Anything t = Unit

module _ {T : Type 0} (E Q : T → Type 0) where
  rolled_post :
      (r : Result (Unit {0})) (w : World T) (before : T)
      → E before
      → Post Anything (λ _. Q) r w.tables
      → Post E (λ _. Q) (rolled_back before r w).0 (rolled_back before r w).1.tables
  rolled_post (ok a) w before h q = q
  rolled_post (err e) w before h q = h

  ended_post : (o : Option Error) (t : T) → Q t → Post Anything (λ _. Q) (ended o) t
  ended_post none t q = q
  ended_post (some e) t q = tt

  Ensures-commit : Ensures Q Anything (λ _. Q) commit
  unfolding commit
  Ensures-commit = record { run = λ w q. ended_post (fault_of w.latencies) w.tables q }

module _ {T : Type 0} {P : T → Type 0} where
  Ensures-begin : Ensures P Anything (λ _. P) (statement "begin transaction" (λ now t. (ok tt, t)))
  Ensures-begin = Ensures-statement _ _ (λ now t p. p) λ t p. tt

module _ {T : Type 0} {P E Q : T → Type 0} where
  -- A transaction that fails, at whatever statement, leaves the tables that it found.
  pub Ensures-transaction :
      (body : Exec T (Unit {0}))
      → Ensures P Anything (λ _. Q) body
      → ((t : T) → P t → E t)
      → Ensures P E (λ _. Q) (transaction body)
  unfolding transaction
  Ensures-transaction body k h =
      let unrolled_ensures : Ensures P Anything (λ _. Q) (unrolled body) =
        Ensures-bind _ _ (Ensures-bind _ _ Ensures-begin λ _. k) λ _. Ensures-commit E Q in
      record {
        run = λ w p.
            rolled_post E Q (unrolled body w).0 (unrolled body w).1 w.tables (h w.tables p)
              (unrolled_ensures.run w p);
      }

module _ {T A : Type 0} where
  Anything-Post : (r : Result A) (t : T) → Post Anything (λ _. Anything) r t
  Anything-Post (ok a) t = tt
  Anything-Post (err e) t = tt

  pub Ensures-Anything : (m : Exec T A) → Ensures Anything Anything (λ _. Anything) m
  Ensures-Anything m = record { run = λ w p. Anything-Post (m w).0 (m w).1.tables }

  same_post : (P : T → Type 0) (r : Result A) (t : T) → Post P (λ _. P) r t → P t
  same_post P (ok a) t p = p
  same_post P (err e) t p = p

  -- A call that keeps a property however it ends.
  pub Ensures-kept :
      {P : T → Type 0} (m : Exec T A)
      → Ensures P P (λ _. P) m
      → (w : World T) → P w.tables
      → P (m w).1.tables
  Ensures-kept {P} m k w p = same_post P (m w).0 (m w).1.tables (k.run w p)
