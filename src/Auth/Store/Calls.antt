-- ===== src/Auth/Store/Calls.antt =====
-- Sequences of calls to the session store, beside the abstract store.
use kariz.Prelude.{ℕ, ◌≡◌, refl, ◌+◌, String, Option, none, some, List, [], ◌∷◌, arith, inl, inr}
use kariz.Models.Errors.{Error, wrapped}
use kariz.Models.User.{User, Session, SessionData}
use kariz.Database.{
  Result, ok, err, World, ◌>>=◌, pure, lift, elapse, outcome, fault_of, delay, continue, wrap_error,
  Result-cases,
}
use kariz.Database.Rows.{find}
use kariz.Database.Triples.{statement-ends}
use kariz.Auth.{Tables}
use kariz.Auth.Sessions
use kariz.Auth.Sessions.{session_token, add_session, live}
use kariz.Auth.Store.{
  SessionCodec, Fresh, stamped, new_session, insert_stamped, decoded, create, get, delete,
  delete_by_user_id, clean_expired,
}
use kariz.Auth.Store.Refinement.{
  Store, put, erase, erase_user, lookup, Matches, Represents, Represents-later, Represents-clean,
  Represents-erase, Represents-erase_user, Represents-put, Represents-empty, decoded-live,
}

-- `waits` is time that passes between calls.
pub data Call : Type 0 where
  creates : Fresh → SessionData → Call
  deletes revokes : String → Call
  cleans : Call
  waits : ℕ → Call

abbrev pub empty_store : Store
empty_store t = none

-- The data with the times of its creation and its end.
abbrev pub dated : ℕ → ℕ → SessionData → SessionData
dated start end d = record d { created_at = start; expires_at = end }

-- A call that fails changes nothing.
abbrev pub if_ok : {A : Type 0} → Result A → Store → Store → Store
if_ok (ok a) new old = new
if_ok (err e) new old = old

abbrev pub put_created : Result String → SessionData → Store → Store
put_created (ok token) d store = put token d store
put_created (err e) d store = store

module _ (codec : SessionCodec) (ttl : ℕ) where
  -- A call on the program's store, and what its result says of the abstract one.
  abbrev pub step : Call → World Tables → Store → World Tables × Store
  step (creates fresh d) w store =
      let r = create codec ttl fresh d w in
      (r.1, put_created r.0 (dated w.clock (w.clock + ttl) d) store)
  step (deletes token) w store =
      let r = delete token w in (r.1, if_ok r.0 (erase token store) store)
  step (revokes id) w store =
      let r = delete_by_user_id id w in (r.1, if_ok r.0 (erase_user id store) store)
  step cleans w store = ((clean_expired w).1, store)
  step (waits n) w store = ((delay n w).1, store)

  abbrev pub steps : List Call → World Tables → Store → World Tables × Store
  steps [] w store = (w, store)
  steps (c ∷ cs) w store = let r = step c w store in steps cs r.0 r.1

  abbrev pub Refines : World Tables → Store → Type 0
  Refines w store = Represents codec w.clock w.tables.sessions store

  Refines-elapse : (w : World Tables) (store : Store) → Refines w store → Refines (elapse w) store
  Refines-elapse w store r =
      Represents-later codec w.clock w.tables.sessions store r (elapse w).clock (omega arith)

  add-Refines :
      (w : World Tables) (store : Store) (s : Session) (d : SessionData)
      (same clash : Option Session) (owner : Option User)
      → Refines w store
      → find session_token s.session_token w.tables.sessions ≡ same
      → Matches codec w.clock (some s) (some d)
      → let r = add_session s same clash owner w.tables in
        Represents codec w.clock r.1.sessions (if_ok r.0 (put s.session_token d store) store)
  unfolding add_session
  add-Refines w store s d none none (some u) r h m =
      Represents-put codec w.clock w.tables.sessions store r s d h m
  add-Refines w store s d none none none r h m = r
  add-Refines w store s d none (some c) owner r h m = r
  add-Refines w store s d (some c) clash owner r h m = r

  insert-Refines :
      (s : Session) (d : SessionData) (w : World Tables) (store : Store)
      → Refines w store
      → ((now : ℕ) → Matches codec now (some s) (some d))
      → let r = Sessions.create s w in Refines r.1 (if_ok r.0 (put s.session_token d store) store)
  unfolding Sessions.create
  insert-Refines s d w store r m =
      statement-ends _ _ w (λ x v. Refines v (if_ok x (put s.session_token d store) store))
        (add-Refines (elapse w) store s d _ _ _ (Refines-elapse w store r) refl
          (m (elapse w).clock))
        λ e. Refines-elapse w store r

  continue-Refines :
      (token : String) (d : SessionData) (x : Result (Unit {0})) (v : World Tables) (store : Store)
      → Refines v (if_ok x (put token d store) store)
      → let r = continue (wrap_error "create session" x) (λ _. pure token) v in
        Refines r.1 (put_created r.0 d store)
  unfolding ◌>>=◌
  continue-Refines token d (ok u) v store r = r
  continue-Refines token d (err e) v store r = r

  stamped-Refines :
      (fresh : Fresh) (token : String) (d : SessionData) (w : World Tables) (store : Store)
      → Refines w store
      → let r = insert_stamped codec fresh token d w in Refines r.1 (put_created r.0 d store)
  unfolding ◌>>=◌ Matches
  stamped-Refines fresh token d w store r = elim (Result-cases (codec.marshal d)) [
    | inl h ↦ rw h.1 (
        continue-Refines token d _ _ store (
          insert-Refines (new_session codec fresh.uuid token h.0 d) d w store r
            λ now. (codec.unmarshal-marshal d h.0 h.1, (refl, refl))))
    | inr h ↦ rw h.1 r
  ]

  create-Refines :
      (fresh : Fresh) (d : SessionData) (w : World Tables) (store : Store)
      → Refines w store
      → let r = create codec ttl fresh d w in
        Refines r.1 (put_created r.0 (dated w.clock (w.clock + ttl) d) store)
  unfolding create ◌>>=◌
  create-Refines fresh d w store r = elim (Result-cases fresh.token) [
    | inl h ↦ rw h.1 (stamped-Refines fresh h.0 (stamped w.clock ttl d) w store r)
    | inr h ↦ rw h.1 r
  ]

  delete-Refines :
      (token : String) (w : World Tables) (store : Store)
      → Refines w store
      → let r = delete token w in Refines r.1 (if_ok r.0 (erase token store) store)
  unfolding delete Sessions.delete
  delete-Refines token w store r =
      statement-ends _ _ w (λ x v. Refines v (if_ok x (erase token store) store))
        (Represents-erase codec _ _ store (Refines-elapse w store r) token)
        λ e. Refines-elapse w store r

  revoke-Refines :
      (id : String) (w : World Tables) (store : Store)
      → Refines w store
      → let r = delete_by_user_id id w in Refines r.1 (if_ok r.0 (erase_user id store) store)
  unfolding delete_by_user_id Sessions.delete_by_user_id
  revoke-Refines id w store r =
      statement-ends _ _ w (λ x v. Refines v (if_ok x (erase_user id store) store))
        (Represents-erase_user codec _ _ store (Refines-elapse w store r) id)
        λ e. Refines-elapse w store r

  cleaned-Refines :
      (w : World Tables) (store : Store)
      → Refines w store
      → Refines (Sessions.clean_expired w).1 store
  unfolding Sessions.clean_expired
  cleaned-Refines w store r =
      statement-ends _ _ w (λ x v. Refines v store)
        (Represents-clean codec _ _ store (Refines-elapse w store r)) λ e. Refines-elapse w store r

  discard-Refines :
      (x : Result ℕ) (v : World Tables) (store : Store)
      → Refines v store
      → Refines (continue x (λ n. pure tt) v).1 store
  unfolding ◌>>=◌
  discard-Refines (ok n) v store r = r
  discard-Refines (err e) v store r = r

  clean-Refines :
      (w : World Tables) (store : Store) → Refines w store → Refines (clean_expired w).1 store
  unfolding clean_expired ◌>>=◌
  clean-Refines w store r = discard-Refines _ _ store (cleaned-Refines w store r)

  wait-Refines :
      (n : ℕ) (w : World Tables) (store : Store) → Refines w store → Refines (delay n w).1 store
  unfolding delay
  wait-Refines n w store r =
      Represents-later codec w.clock w.tables.sessions store r (w.clock + n) (omega arith)

  step-Refines :
      (c : Call) (w : World Tables) (store : Store)
      → Refines w store
      → let r = step c w store in Refines r.0 r.1
  step-Refines (creates fresh d) w store r = create-Refines fresh d w store r
  step-Refines (deletes token) w store r = delete-Refines token w store r
  step-Refines (revokes id) w store r = revoke-Refines id w store r
  step-Refines cleans w store r = clean-Refines w store r
  step-Refines (waits n) w store r = wait-Refines n w store r

  steps-Refines :
      (cs : List Call) (w : World Tables) (store : Store)
      → Refines w store
      → let r = steps cs w store in Refines r.0 r.1
  steps-Refines [] w store r = r
  steps-Refines (c ∷ cs) w store r = steps-Refines cs _ _ (step-Refines c w store r)

  -- What `Get` answers if its statement fails, and if not.
  abbrev pub answered : Option Error → Option SessionData → Result (Option SessionData)
  answered none found = ok found
  answered (some e) found = err (wrapped "get session" (wrapped "get session by token" e))

  get_outcome :
      (token : String) (fault : Option Error) (w : World Tables) (store : Store)
      → Refines w store
      → let r =
          outcome "get session by token" fault (λ now t. (ok (live token now t.sessions), t)) w in
        (continue (wrap_error "get session" r.0) (λ s. lift (decoded codec s)) r.1).0
        ≡ answered fault (lookup w.clock token store)
  unfolding ◌>>=◌
  get_outcome token none w store r = decoded-live codec w.clock w.tables.sessions store r token
  get_outcome token (some e) w store r = refl

  pub get-lookup :
      (token : String) (w : World Tables) (store : Store)
      → Refines w store
      → (get codec token w).0
        ≡ answered (fault_of w.latencies) (lookup (elapse w).clock token store)
  unfolding get Sessions.get_by_token ◌>>=◌
  get-lookup token w store r = get_outcome token _ (elapse w) store (Refines-elapse w store r)

  -- Whatever calls were made of a store that began without sessions, at whatever times and with whatever
  -- statements failing, `Get` answers what the map of tokens has: the data that the last creation under
  -- the token put there, unless its time is over, or the token or all sessions of its user
  -- were deleted since. Failed calls and the removal of expired sessions change no answer.
  pub get-steps :
      (cs : List Call) (token : String) (w : World Tables)
      → w.tables.sessions ≡ []
      → let r = steps cs w empty_store in
        (get codec token r.0).0
        ≡ answered (fault_of r.0.latencies) (lookup (elapse r.0).clock token r.1)
  get-steps cs token w h =
      get-lookup token _ _
        (steps-Refines cs w empty_store (Represents-empty codec w.clock w.tables.sessions h))
