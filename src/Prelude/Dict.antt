-- ===== src/Prelude/Dict.antt =====
-- Python's `dict`: an association list in insertion order. A write to a present key keeps its
-- place, a write to a new key appends.
use Prim.Native.Nat.{suc, ◌≤◌, ◌<◌}
use mathlib.Core.Path.{◌≡◌, refl}
use mathlib.Core.Logic.{◌≢◌, ite, if_pos, if_neg}
use mathlib.Core.Option.{Option, none, some}
use mathlib.Core.List.{List, [], ◌∷◌, ◌++◌}
use native.Mathlib.Omega.{arith}
use quick_price.Prelude.Lists.{length}

abbrev pub Dict {ℓ} : Type ℓ → Type ℓ → Type ℓ
Dict K V = List (K × V)

module _ {ℓ} {K V : Type ℓ} (dec : Discrete K) where
  -- d.get(k)
  unfoldable pub get : K → Dict K V → Option V
  get k [] = none
  get k ((j, v) ∷ d) = ite (dec j k) (some v) (get k d)

  -- d[k] = v
  unfoldable pub put : K → V → Dict K V → Dict K V
  put k v [] = (k, v) ∷ []
  put k v ((j, w) ∷ d) = ite (dec j k) ((k, v) ∷ d) ((j, w) ∷ put k v d)

  -- d.pop(k, None); every entry of the key goes, as a dict holds one at most
  unfoldable pub pop : K → Dict K V → Dict K V
  pop k [] = []
  pop k ((j, w) ∷ d) = let rest = pop k d in ite (dec j k) rest ((j, w) ∷ rest)

  pub get-put :
      (k j : K) (v : V) (d : Dict K V) → get j (put k v d) ≡ ite (dec k j) (some v) (get j d)
  unfolding get put
  get-put k j v [] = refl
  get-put k j v ((i, w) ∷ d) = ground (arith, get-put k j v d)

  pub get-pop : (k j : K) (d : Dict K V) → get j (pop k d) ≡ ite (dec k j) none (get j d)
  unfolding get pop
  get-pop k j [] = ground arith
  get-pop k j ((i, w) ∷ d) = ground (arith, get-pop k j d)

  pub get-put_self : (k : K) (v : V) (d : Dict K V) → get k (put k v d) ≡ some v
  get-put_self k v d = ground (arith, get-put k k v d)

  pub get-put_ne : (k j : K) (v : V) (d : Dict K V) → k ≢ j → get j (put k v d) ≡ get j d
  get-put_ne k j v d h = ground (arith, get-put k j v d)

  pub length-put_new :
      (k : K) (v : V) (d : Dict K V) → get k d ≡ none → length (put k v d) ≡ suc (length d)
  unfolding get put
  length-put_new k v [] h = refl
  length-put_new k v ((i, w) ∷ d) h = ground (arith, length-put_new k v d)

  pub length-put-le : (k : K) (v : V) (d : Dict K V) → length (put k v d) ≤ suc (length d)
  unfolding put
  length-put-le k v [] = omega arith
  length-put-le k v ((i, w) ∷ d) = ground (arith, length-put-le k v d)

  pub length-put_found :
      (k : K) (v w : V) (d : Dict K V) → get k d ≡ some v → length (put k w d) ≡ length d
  unfolding get put
  length-put_found k v w [] h = absurd (cc h)
  length-put_found k v w ((i, x) ∷ d) h = ground (arith, length-put_found k v w d)

  pub length-pop-le : (k : K) (d : Dict K V) → length (pop k d) ≤ length d
  unfolding pop
  length-pop-le k [] = omega arith
  length-pop-le k ((i, w) ∷ d) = ground (arith, length-pop-le k d)

-- The invariant of a `dict`: no key stands twice.
module _ {ℓ} {K V : Type ℓ} (dec : Discrete K) where
  abbrev pub Unique : Dict K V → Type ℓ
  Unique [] = Unit
  Unique ((k, v) ∷ d) = (get dec k d ≡ none) × Unique d

  -- An entry with a new key at the end.
  pub get-append_new :
      (k j : K) (v : V) (d : Dict K V)
      → get dec k d ≡ none
      → get dec j (d ++ (k, v) ∷ []) ≡ ite (dec k j) (some v) (get dec j d)
  unfolding get
  get-append_new k j v [] h = refl
  get-append_new k j v ((i, w) ∷ d) h = ground (arith, get-append_new k j v d)

  pub append_new-Unique :
      (k : K) (v : V) (d : Dict K V) → get dec k d ≡ none → Unique d → Unique (d ++ (k, v) ∷ [])
  append_new-Unique k v [] h u = ((unfold get in refl), tt)
  append_new-Unique k v ((i, w) ∷ d) h u = (
    unfold get in ground (arith, get-append_new k i v d),
    append_new-Unique k v d (unfold get in ground arith) u.1,
  )

  pub pop-Unique : (k : K) (d : Dict K V) → Unique d → Unique (pop dec k d)
  unfolding pop
  pop-Unique k [] u = tt
  pop-Unique k ((i, w) ∷ d) u = elim (dec i k) [
    | yes p ↦ rw (if_pos _ p) (pop-Unique k d u.1)
    | no p ↦ rw (if_neg _ p) (ground (arith, get-pop dec k i d), pop-Unique k d u.1)
  ]

  pub get-pop_self : (k : K) (d : Dict K V) → get dec k (pop dec k d) ≡ none
  get-pop_self k d = ground (arith, get-pop dec k k d)

  pub length-pop_found :
      (k : K) (v : V) (d : Dict K V) → get dec k d ≡ some v → length (pop dec k d) < length d
  unfolding get pop
  length-pop_found k v [] h = cc
  length-pop_found k v ((i, w) ∷ d) h =
      ground (arith, length-pop_found k v d, length-pop-le dec k d)

  pub put-Unique : (k : K) (v : V) (d : Dict K V) → Unique d → Unique (put dec k v d)
  unfolding put
  put-Unique k v [] u = ((unfold get in refl), tt)
  put-Unique k v ((i, w) ∷ d) u = elim (dec i k) [
    | yes p ↦ rw (if_pos _ p) (rw (← p) u.0, u.1)
    | no p ↦ rw (if_neg _ p) (ground (arith, get-put dec k i v d), put-Unique k v d u.1)
  ]
