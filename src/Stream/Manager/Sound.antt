-- ===== src/Stream/Manager/Sound.antt =====
-- What holds of the manager of internal/stream/manager.go between two calls.
use kariz.Prelude.{
  ℕ, ◌<◌, ◌≡◌, ◌≢◌, refl, String, none, some, List, [], inl, inr, Bool-cases, Option-cases, arith,
  eq_iff, ◌==◌, update,
}
use kariz.Stream.Invariant.{IsWellFormed, new_stream-IsWellFormed}
use kariz.Stream.{ExecutionStream, new_stream}
use kariz.Stream.Manager.{Manager, new_manager, with_new, write, get_or_create_stream}

abbrev pub IsLive : ExecutionStream → Type 0
IsLive es = (subs : List ℕ) × (es.subscribers ≡ some subs)

-- What holds between two calls: the map's addresses were handed out and are those of one execution each, and
-- the streams in it are well formed and have a subscriber map.
pub record IsSound (m : Manager) : Type 0 where
  pub known : (id : String) (p : ℕ) → m.streams id ≡ some p → p < m.next
  pub well_formed : (id : String) (p : ℕ) → m.streams id ≡ some p → IsWellFormed (m.heap p)
  pub live : (id : String) (p : ℕ) → m.streams id ≡ some p → IsLive (m.heap p)
  pub separate : (i j : String) (p : ℕ) → m.streams i ≡ some p → m.streams j ≡ some p → i ≡ j

pub new_manager-IsSound : IsSound new_manager
unfolding new_manager
new_manager-IsSound = record {
  known = λ id p h. cc;
  well_formed = λ id p h. cc;
  live = λ id p h. cc;
  separate = λ i j p h k. cc;
}

new_stream-IsLive : IsLive new_stream
unfolding new_stream
new_stream-IsLive = ([], refl)

pub IsWellFormed-update :
    (heap : ℕ → ExecutionStream) (p q : ℕ) (es : ExecutionStream)
    → IsWellFormed es
    → (q ≢ p → IsWellFormed (heap q))
    → IsWellFormed (update heap p es q)
IsWellFormed-update heap p q es w h = elim (Bool-cases (q == p)) [
  | inl e ↦ rw e w
  | inr e ↦ rw e (h (ground arith))
]

IsLive-update :
    (heap : ℕ → ExecutionStream) (p q : ℕ) (es : ExecutionStream)
    → (q ≡ p → IsLive es)
    → (q ≢ p → IsLive (heap q))
    → IsLive (update heap p es q)
IsLive-update heap p q es l h = elim (Bool-cases (q == p)) [
  | inl e ↦ rw e (l (ground arith))
  | inr e ↦ rw e (h (ground arith))
]

pub with_new-IsSound :
    (id : String) (m : Manager) → m.streams id ≡ none → IsSound m → IsSound (with_new id m)
with_new-IsSound id m absent s = record {
  known = λ i p h. ground (arith, s.known i p);
  well_formed = λ i p h.
      IsWellFormed-update m.heap m.next p new_stream new_stream-IsWellFormed
        λ ne. s.well_formed i p (ground arith);
  live = λ i p h.
      IsLive-update m.heap m.next p new_stream (λ _. new_stream-IsLive)
        λ ne. s.live i p (ground arith);
  separate = λ i j p h k.
      ground (arith, eq_iff i id, eq_iff j id, s.known i p, s.known j p, s.separate i j p);
}

pub write-IsSound :
    (m : Manager) (p : ℕ) (es : ExecutionStream)
    → IsSound m
    → IsWellFormed es
    → ((id : String) → m.streams id ≡ some p → IsLive es)
    → IsSound (write m p es)
write-IsSound m p es s w l = record {
  known = s.known;
  well_formed = λ i q h. IsWellFormed-update m.heap p q es w λ ne. s.well_formed i q h;
  live = λ i q h. IsLive-update m.heap p q es (λ e. l i (rw (← e) h)) λ ne. s.live i q h;
  separate = s.separate;
}

pub get_or_create-some :
    (id : String) (p : ℕ) (m : Manager) → m.streams id ≡ some p → get_or_create_stream id m ≡ (p, m)
unfolding get_or_create_stream
get_or_create-some id p m e = rw (e, get_or_create_stream)

pub get_or_create-none :
    (id : String) (m : Manager)
    → m.streams id ≡ none
    → get_or_create_stream id m ≡ (m.next, with_new id m)
unfolding get_or_create_stream
get_or_create-none id m e = rw (e, get_or_create_stream)

-- The manager is sound, and each stream that it handed out is well formed, those that `Cleanup` dropped too.
pub record IsSteady (m : Manager) : Type 0 where
  pub sound : IsSound m
  pub whole : (p : ℕ) → IsWellFormed (m.heap p)

pub new_manager-IsSteady : IsSteady new_manager
unfolding new_manager
new_manager-IsSteady = record { sound = new_manager-IsSound; whole = λ p. new_stream-IsWellFormed }

pub write-IsSteady :
    (m : Manager) (p : ℕ) (es : ExecutionStream)
    → IsSteady m
    → IsWellFormed es
    → ((id : String) → m.streams id ≡ some p → IsLive es)
    → IsSteady (write m p es)
write-IsSteady m p es s w l = record {
  sound = write-IsSound m p es s.sound w l;
  whole = λ q. IsWellFormed-update m.heap p q es w λ ne. s.whole q;
}

pub with_new-IsSteady :
    (id : String) (m : Manager) → m.streams id ≡ none → IsSteady m → IsSteady (with_new id m)
with_new-IsSteady id m e s = record {
  sound = with_new-IsSound id m e s.sound;
  whole =
      λ q. IsWellFormed-update m.heap m.next q new_stream new_stream-IsWellFormed λ ne. s.whole q;
}

pub looked_up : (id : String) (m : Manager) → IsSteady m → IsSteady (get_or_create_stream id m).1
looked_up id m s = elim (Option-cases (m.streams id)) [
  | inr (p, e) ↦ rw (get_or_create-some id p m e) s
  | inl e ↦ rw (get_or_create-none id m e) (with_new-IsSteady id m e s)
]
