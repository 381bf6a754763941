-- ===== src/Auth/Store/Refinement.antt =====
-- The session store as a map from tokens to data: what its calls do, and what `Get` answers.
use kariz.Prelude.{
  ℕ, ◌≡◌, ◌≤◌, refl, String, Bool, true, false, not, Option, none, some, List, [], ◌∷◌, ◌++◌, ltb,
  select, arith, eq_iff, eq_sym, ◌=ₛ◌, if◌then◌else◌,
}
use kariz.Models.User.{Session, SessionData}
use kariz.Database.{ok}
use kariz.Database.Rows.{
  find, key-find, keep, distinct, find-select, distinct-select, find-append, distinct-append,
}
use kariz.Auth.Sessions.{session_token, live}
use kariz.Auth.Store.{decoded, decoded_text, SessionCodec}

-- The abstract store.
abbrev pub Store : Type 0
Store = String → Option SessionData

abbrev pub put : String → SessionData → Store → Store
put token d store t = if token =ₛ t then some d else store t

abbrev pub erase : String → Store → Store
erase token store t = if token =ₛ t then none else store t

abbrev pub erase_user : String → Store → Store
erase_user id store t = keep (λ d. not (d.user_id =ₛ id)) (store t)

abbrev pub lookup : ℕ → String → Store → Option SessionData
lookup now token store = keep (λ d. ltb now d.expires_at) (store token)

-- `live` is the row under the token, while it has not expired.
live-find :
    (token : String) (now : ℕ) (rows : List Session)
    → distinct session_token rows ≡ true
    → live token now rows ≡ keep (λ s. ltb now s.expires_at) (find session_token token rows)
unfolding live find distinct
live-find token now [] h = refl
live-find token now (s ∷ rows) h =
    ground (arith, live-find token now rows, eq_iff s.session_token token)

module _ (codec : SessionCodec) where
  -- A row and the data that it holds. An expired row may have been removed.
  unfoldable pub Matches : ℕ → Option Session → Option SessionData → Type 0
  Matches now none none = Unit
  Matches now none (some d) = d.expires_at ≤ now
  Matches now (some s) none = ⊥
  Matches now (some s) (some d) =
      (codec.unmarshal s.session_data ≡ ok d)
      × ((s.user_id ≡ d.user_id) × (s.expires_at ≡ d.expires_at))

  pub record Represents (now : ℕ) (rows : List Session) (store : Store) : Type 0 where
    pub unique : distinct session_token rows ≡ true
    pub matches : (token : String) → Matches now (find session_token token rows) (store token)

  Matches-later :
      (now later : ℕ) (o : Option Session) (e : Option SessionData)
      → now ≤ later
      → Matches now o e
      → Matches later o e
  unfolding Matches
  Matches-later now later none none h m = tt
  Matches-later now later none (some d) h m = omega arith
  Matches-later now later (some s) none h m = m
  Matches-later now later (some s) (some d) h m = m

  kept_expired :
      (now : ℕ) (b : Bool) (s : Session) (d : SessionData)
      → ltb now s.expires_at ≡ b
      → Matches now (some s) (some d)
      → Matches now (if b then some s else none) (some d)
  unfolding Matches
  kept_expired now true s d e m = m
  kept_expired now false s d e m = ground (arith, m.1.1)

  Matches-clean :
      (now : ℕ) (o : Option Session) (e : Option SessionData)
      → Matches now o e
      → Matches now (keep (λ s. ltb now s.expires_at) o) e
  unfolding Matches
  Matches-clean now none none m = tt
  Matches-clean now none (some d) m = m
  Matches-clean now (some s) none m = absurd m
  Matches-clean now (some s) (some d) m = kept_expired now (ltb now s.expires_at) s d refl m

  kept_none :
      (now : ℕ) (b : Bool) (d : SessionData)
      → d.expires_at ≤ now
      → Matches now none (if b then some d else none)
  unfolding Matches
  kept_none now true d h = h
  kept_none now false d h = tt

  kept_both :
      (now : ℕ) (b c : Bool) (s : Session) (d : SessionData)
      → b ≡ c
      → Matches now (some s) (some d)
      → Matches now (if b then some s else none) (if c then some d else none)
  unfolding Matches
  kept_both now true true s d e m = m
  kept_both now false false s d e m = tt
  kept_both now true false s d e m = absurd (ground arith)
  kept_both now false true s d e m = absurd (ground arith)

  Matches-erase_user :
      (now : ℕ) (id : String) (o : Option Session) (e : Option SessionData)
      → Matches now o e
      → Matches now (keep (λ s. not (s.user_id =ₛ id)) o) (keep (λ d. not (d.user_id =ₛ id)) e)
  unfolding Matches
  Matches-erase_user now id none none m = tt
  Matches-erase_user now id none (some d) m = kept_none now (not (d.user_id =ₛ id)) d m
  Matches-erase_user now id (some s) none m = absurd m
  Matches-erase_user now id (some s) (some d) m =
      kept_both now (not (s.user_id =ₛ id)) (not (d.user_id =ₛ id)) s d (rw m.1.0) m

  -- What the row under a token gives, when it is there and live.
  decoded-Matches :
      (now : ℕ) (o : Option Session) (e : Option SessionData)
      → Matches now o e
      → decoded codec (keep (λ s. ltb now s.expires_at) o) ≡ ok (keep (λ d. ltb now d.expires_at) e)
  unfolding decoded decoded_text Matches
  decoded-Matches now none none m = refl
  decoded-Matches now none (some d) m = ground arith
  decoded-Matches now (some s) none m = absurd m
  decoded-Matches now (some s) (some d) m = ground (arith, m.0, m.1.1)

  erased_none :
      (now : ℕ) (b : Bool) (e : Option SessionData)
      → Matches now none e
      → Matches now none (if b then none else e)
  unfolding Matches
  erased_none now true e m = tt
  erased_none now false e m = m

  erased_both :
      (now : ℕ) (b c : Bool) (s : Session) (d : SessionData)
      → b ≡ c
      → Matches now (some s) (some d)
      → Matches now (if not b then some s else none) (if c then none else some d)
  unfolding Matches
  erased_both now true true s d e m = tt
  erased_both now false false s d e m = m
  erased_both now true false s d e m = absurd (ground arith)
  erased_both now false true s d e m = absurd (ground arith)

  Matches-erase :
      (now : ℕ) (token t : String) (o : Option Session) (e : Option SessionData)
      → ((s : Session) → o ≡ some s → s.session_token ≡ t)
      → Matches now o e
      → Matches now (keep (λ s. not (s.session_token =ₛ token)) o) (if token =ₛ t then none else e)
  unfolding Matches
  Matches-erase now token t none e keys m = erased_none now (token =ₛ t) e m
  Matches-erase now token t (some s) none keys m = absurd m
  Matches-erase now token t (some s) (some d) keys m =
      erased_both now (s.session_token =ₛ token) (token =ₛ t) s d
        (ground (arith, keys s refl, eq_sym t token)) m

  -- Each call on the rows, and on the abstract store.
  module _ (now : ℕ) (rows : List Session) (store : Store) (r : Represents now rows store) where
    pub Represents-later : (later : ℕ) → now ≤ later → Represents later rows store
    Represents-later later h = record {
      unique = r.unique;
      matches = λ t. Matches-later now later (find session_token t rows) (store t) h (r.matches t);
    }

    pub Represents-clean : Represents now (select (λ s. ltb now s.expires_at) rows) store
    Represents-clean = record {
      unique = distinct-select session_token _ rows r.unique;
      matches = λ t.
          rw (find-select session_token (λ s. ltb now s.expires_at) t rows r.unique)
            (Matches-clean now (find session_token t rows) (store t) (r.matches t));
    }

    pub Represents-erase_user :
        (id : String)
        → Represents now (select (λ s. not (s.user_id =ₛ id)) rows) (erase_user id store)
    Represents-erase_user id = record {
      unique = distinct-select session_token _ rows r.unique;
      matches = λ t.
          rw (find-select session_token (λ s. not (s.user_id =ₛ id)) t rows r.unique)
            (Matches-erase_user now id (find session_token t rows) (store t) (r.matches t));
    }

    pub Represents-erase :
        (token : String)
        → Represents now (select (λ s. not (s.session_token =ₛ token)) rows) (erase token store)
    Represents-erase token = record {
      unique = distinct-select session_token _ rows r.unique;
      matches = λ t.
          rw (find-select session_token (λ s. not (s.session_token =ₛ token)) t rows r.unique) (
            Matches-erase now token t (find session_token t rows) (store t)
              (key-find session_token t rows) (r.matches t));
    }

    Matches-put :
        (s : Session) (d : SessionData)
        → find session_token s.session_token rows ≡ none
        → Matches now (some s) (some d)
        → (t : String) (b : Bool)
        → Matches now
            (if b then some s else find session_token t rows)
            (if b then some d else store t)
    Matches-put s d h m t true = m
    Matches-put s d h m t false = r.matches t

    pub Represents-put :
        (s : Session) (d : SessionData)
        → find session_token s.session_token rows ≡ none
        → Matches now (some s) (some d)
        → Represents now (rows ++ s ∷ []) (put s.session_token d store)
    Represents-put s d h m = record {
      unique = distinct-append session_token rows s h r.unique;
      matches = λ t.
          rw (find-append session_token t rows s h) (Matches-put s d h m t (s.session_token =ₛ t));
    }

    pub decoded-live :
        (token : String) → decoded codec (live token now rows) ≡ ok (lookup now token store)
    decoded-live token =
        rw (live-find token now rows r.unique)
          (decoded-Matches now (find session_token token rows) (store token) (r.matches token))

  Represents-nil : (now : ℕ) → Represents now [] (λ t. none)
  unfolding Matches distinct find
  Represents-nil now = record { unique = refl; matches = λ t. tt }

  pub Represents-empty :
      (now : ℕ) (rows : List Session) → rows ≡ [] → Represents now rows (λ t. none)
  Represents-empty now rows h = rw h (Represents-nil now)
