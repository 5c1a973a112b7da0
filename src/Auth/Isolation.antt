-- ===== src/Auth/Isolation.antt =====
-- auth.py, class `Authenticator`: callers without a key cannot use up the requests of those with one.
use quick_price.Prelude.{
  ◌≡◌, refl, sym, ◌∙◌, inl, inr, Bool, true, false, Option, none, some, String, List, [], ◌∷◌,
  if◌then◌else◌, Option-cases,
}
use quick_price.Prelude.Dict.{Dict}
use quick_price.Limiter.{Bucket}
use quick_price.Auth.{
  Settings, Limiters, Attempt, Answer, matched, charge_valid, charge_invalid, authenticate_as,
  authenticate,
}

module _ {C : Type 0} (s : Settings C) where
  -- adds the answer of an attempt whose key matched
  abbrev pub answered : Option (Answer C) → Answer C → List (Answer C) → List (Answer C)
  answered none r rs = rs
  answered (some q) r rs = r ∷ rs

  -- The answers to the attempts whose keys match, in a sequence of any attempts.
  unfoldable pub valid_answers : Limiters → List Attempt → List (Answer C)
  valid_answers st [] = []
  valid_answers st (a ∷ rest) =
      let (st', r) = authenticate s st a in answered (matched s a) r (valid_answers st' rest)

  abbrev keeps : Option (Answer C) → Attempt → List Attempt → List Attempt
  keeps none a rest = rest
  keeps (some q) a rest = a ∷ rest

  -- The attempts whose keys match.
  unfoldable pub only_valid : List Attempt → List Attempt
  only_valid [] = []
  only_valid (a ∷ rest) = keeps (matched s a) a (only_valid rest)

  HasValid : Limiters → Limiters × Answer C → Type 0
  HasValid st p = p.0.valid ≡ st.valid

  if_HasValid :
      (b : Bool) (st : Limiters) (x y : Answer C) (i : Dict String Bucket)
      → HasValid st (if b then (record st { invalid = i }, x) else (st, y))
  unfolding HasValid
  if_HasValid true st x y i = refl
  if_HasValid false st x y i = refl

  charge_invalid-HasValid : (st : Limiters) (a : Attempt) → HasValid st (charge_invalid s st a)
  unfolding charge_invalid
  charge_invalid-HasValid st a = if_HasValid s.enabled st _ _ _

  none-valid :
      (o : Option (Answer C)) (st : Limiters) (a : Attempt)
      → o ≡ none
      → (authenticate_as s st a o).0.valid ≡ st.valid
  unfolding authenticate_as HasValid
  none-valid none st a e = charge_invalid-HasValid st a
  none-valid (some q) st a e = absurd (cc e)

  -- Two states with the same limiter of valid keys charge a valid key alike.
  Alike : Limiters × Answer C → Limiters × Answer C → Type 0
  Alike p q = (p.0.valid ≡ q.0.valid) × (p.1 ≡ q.1)

  both :
      (b : Bool) (st st' : Limiters) (x y : Answer C) (v : Dict String Bucket)
      → st.valid ≡ st'.valid
      → Alike
          (if b then (record st { valid = v }, x) else (st, y))
          (if b then (record st' { valid = v }, x) else (st', y))
  unfolding Alike
  both true st st' x y v e = (refl, refl)
  both false st st' x y v e = (e, refl)

  table-Alike :
      (v v' : Dict String Bucket) (i i' : Dict String Bucket) (a : Attempt) (r : Answer C)
      → v ≡ v'
      → Alike
          (charge_valid s (record { valid = v; invalid = i }) a r)
          (charge_valid s (record { valid = v'; invalid = i' }) a r)
  unfolding charge_valid
  table-Alike v v' i i' a r e = rw e (
      both s.enabled (record { valid = v'; invalid = i }) (record { valid = v'; invalid = i' }) _ _
        _ refl)

  cons : (o : Answer C) (q : Answer C) (rs qs : List (Answer C)) → o ≡ q → rs ≡ qs → o ∷ rs ≡ q ∷ qs
  cons o q rs qs e f = rw (e, f) refl

  some-alike :
      (o : Option (Answer C)) (q : Answer C) (st st' : Limiters) (a : Attempt)
      → o ≡ some q
      → st.valid ≡ st'.valid
      → ((authenticate_as s st a o).0.valid ≡ (authenticate_as s st' a o).0.valid)
        × ((authenticate_as s st a o).1 ≡ (authenticate_as s st' a o).1)
  unfolding authenticate_as Alike
  some-alike none q st st' a f e = absurd (cc f)
  some-alike (some r) q st st' a f e = table-Alike st.valid st'.valid st.invalid st'.invalid a r e

  authenticate-alike :
      (q : Answer C) (st st' : Limiters) (a : Attempt)
      → matched s a ≡ some q
      → st.valid ≡ st'.valid
      → ((authenticate s st a).0.valid ≡ (authenticate s st' a).0.valid)
        × ((authenticate s st a).1 ≡ (authenticate s st' a).1)
  unfolding authenticate
  authenticate-alike q st st' a f e = some-alike (matched s a) q st st' a f e

  answers-valid :
      (q : Answer C) (st : Limiters) (a : Attempt) (rest : List Attempt)
      → matched s a ≡ some q
      → valid_answers st (a ∷ rest)
        ≡ (authenticate s st a).1 ∷ valid_answers (authenticate s st a).0 rest
  unfolding valid_answers
  answers-valid q st a rest f = rw f refl

  -- The limit of the keys is not touched by attempts without a valid key: the attempts with a valid
  -- key are answered as if the others had never been made, however many there are and from wherever.
  pub valid_answers-only_valid :
      (st st' : Limiters) (rest : List Attempt)
      → st.valid ≡ st'.valid
      → valid_answers st rest ≡ valid_answers st' (only_valid rest)
  unfolding valid_answers only_valid
  valid_answers-only_valid st st' [] e = refl
  valid_answers-only_valid st st' (a ∷ rest) e = elim (Option-cases (matched s a)) [
    | inl f ↦ rw f (
        valid_answers-only_valid (authenticate s st a).0 st' rest
          (unfold authenticate in none-valid (matched s a) st a f ∙ e))
    | inr (q, f) ↦
        let (same, equal) = authenticate-alike q st st' a f e in
        rw f (
          cons (authenticate s st a).1 (authenticate s st' a).1 _ _ equal
            (valid_answers-only_valid (authenticate s st a).0 (authenticate s st' a).0 rest same)
          ∙ sym (answers-valid q st' a (only_valid rest) f))
  ]
