-- ===== src/Admin/Table.antt =====
-- admin_security.py: each change of the table of sessions keeps it small and free of duplicates.
use quick_price.Prelude.{
  ℕ, ◌≡◌, ◌⊎◌, ◌≤◌, ◌<◌, refl, sym, inl, inr, some, String, [], ◌∷◌, ltb, leb, leb→lt, length,
  arith, Bool-cases, if_pos, if_neg,
}
use quick_price.Prelude.Dict.{
  Dict, get, put, pop, Unique, put-Unique, pop-Unique, length-pop-le, length-put-le,
  length-put_found, length-pop_found,
}
use quick_price.Prelude.Texts.{String-discrete}
use quick_price.Admin.State.{Settings, Session, session_limit}
use quick_price.Admin.Sessions.{prune, oldest, make_room}
use quick_price.Admin.Access.{prune-Unique, length-prune-le}

abbrev IsIn : Dict String Session → String → Type 0
IsIn d k = (x : Session) × (get String-discrete k d ≡ some x)

IsIn-tail : (j k : String) (x : Session) (d : Dict String Session) → IsIn d k → IsIn ((j, x) ∷ d) k
unfolding get
IsIn-tail j k x d (y, h) = elim (String-discrete j k) [
  | yes e ↦ (x, rw (if_pos _ e) refl)
  | no e ↦ (y, rw (if_neg _ e) h)
]

IsIn-head : (j k : String) (x : Session) (d : Dict String Session) → k ≡ j → IsIn ((j, x) ∷ d) k
unfolding get
IsIn-head j k x d e = (x, rw (if_pos _ (sym e)) refl)

oldest-found :
    (k : String) (seen : ℕ) (d : Dict String Session)
    → (oldest k seen d ≡ k) ⊎ IsIn d (oldest k seen d)
unfolding oldest
oldest-found k seen [] = inl refl
oldest-found k seen ((j, x) ∷ d) =
    let here = oldest-found j x.last_seen d in
    let there = oldest-found k seen d in
    elim (Bool-cases (ltb x.last_seen seen)) [
      | inl e ↦
          rw e (elim here [ inl f ↦ inr (IsIn-head j _ x d f) | inr f ↦ inr (IsIn-tail j _ x d f) ])
      | inr e ↦ rw e (elim there [ inl f ↦ inl f | inr f ↦ inr (IsIn-tail j _ x d f) ])
    ]

oldest-IsIn :
    (k : String) (x : Session) (d : Dict String Session)
    → IsIn ((k, x) ∷ d) (oldest k x.last_seen d)
oldest-IsIn k x d = elim (oldest-found k x.last_seen d) [
  | inl e ↦ IsIn-head k _ x d e
  | inr e ↦ IsIn-tail k _ x d e
]

-- One session for each digest, and no more than the limit.
pub record IsBounded (d : Dict String Session) : Type 0 where
  pub unique : Unique String-discrete d
  pub few : length d ≤ session_limit

make_room-few :
    (d : Dict String Session) → length d ≤ session_limit → length (make_room d) < session_limit
unfolding make_room
make_room-few [] h = omega arith
make_room-few ((k, x) ∷ d) h =
    let (y, found) = oldest-IsIn k x d in
    let shorter = length-pop_found String-discrete (oldest k x.last_seen d) y ((k, x) ∷ d) found in
    elim (Bool-cases (leb session_limit (length ((k, x) ∷ d)))) [
      | inl e ↦ rw e (omega (arith, shorter, h))
      | inr e ↦ rw e (leb→lt session_limit (length ((k, x) ∷ d)) e)
    ]

make_room-Unique :
    (d : Dict String Session) → Unique String-discrete d → Unique String-discrete (make_room d)
unfolding make_room
make_room-Unique [] u = tt
make_room-Unique ((k, x) ∷ d) u = elim (Bool-cases (leb session_limit (length ((k, x) ∷ d)))) [
  | inl e ↦ rw e (pop-Unique String-discrete (oldest k x.last_seen d) ((k, x) ∷ d) u)
  | inr e ↦ rw e u
]

pub prune-IsBounded :
    (s : Settings) (now : ℕ) (d : Dict String Session) → IsBounded d → IsBounded (prune s now d)
prune-IsBounded s now d b = record {
  unique = prune-Unique s now d b.unique;
  few = omega (arith, length-prune-le s now d, b.few);
}

pub pop-IsBounded :
    (k : String) (d : Dict String Session) → IsBounded d → IsBounded (pop String-discrete k d)
pop-IsBounded k d b = record {
  unique = pop-Unique String-discrete k d b.unique;
  few = omega (arith, length-pop-le String-discrete k d, b.few);
}

pub add-IsBounded :
    (k : String) (x : Session) (d : Dict String Session)
    → IsBounded d
    → IsBounded (put String-discrete k x (make_room d))
add-IsBounded k x d b = record {
  unique = put-Unique String-discrete k x (make_room d) (make_room-Unique d b.unique);
  few = omega (arith, length-put-le String-discrete k x (make_room d), make_room-few d b.few);
}

pub update-IsBounded :
    (k : String) (x y : Session) (d : Dict String Session)
    → get String-discrete k d ≡ some x
    → IsBounded d
    → IsBounded (put String-discrete k y d)
update-IsBounded k x y d h b = record {
  unique = put-Unique String-discrete k y d b.unique;
  few = omega (arith, length-put_found String-discrete k x y d h, b.few);
}
