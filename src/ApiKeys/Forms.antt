-- ===== src/ApiKeys/Forms.antt =====
-- api_keys.py: the ids and hashes of the keys that a call would store.
use mathlib.Core.Path.{subst}
use quick_price.Prelude.{
  ℕ, ◌≡◌, ◌≢◌, refl, ◌⊎◌, inl, inr, true, false, Option, none, some, String, List, [], ◌∷◌, All,
  Bool-cases, arith,
}
use quick_price.ApiKeys.{
  Texts, Key, Failure, Result, ok, err, ◌>>=◌, is_key_hash, checked_key, new_record,
  record_from_import, Import, Moment, normalize_expiry, hash_api_key, key_hint, hash_of_import,
}
use quick_price.ApiKeys.Manager.{
  has_hash, repeats, generated, import_records, distinct, Call, creating, importing, updating,
  revoking,
}

-- What Python documents of the texts: a stripped text has nothing to strip, and a hash in the form
-- `sha256:<64 lowercase hexadecimal digits>` has nothing to strip or to put in lower case.
pub record Laws (x : Texts) : Type 0 where
  pub strip_twice : (s : String) → x.strip (x.strip s) ≡ x.strip s
  pub plain_hash : (h : String) → is_key_hash h ≡ true → x.lower (x.strip h) ≡ h

abbrev pub Normal : Texts → Key → Type 0
Normal x k = (x.strip k.key_id ≡ k.key_id) × (is_key_hash k.key_hash ≡ true)

-- The ids of new keys are not in use, and no two of them are equal.
abbrev pub NewIds : List Key → List Key → Type 0
NewIds keys [] = Unit
NewIds keys (k ∷ ks) =
    All (λ j. j.key_id ≢ k.key_id) keys × All (λ j. j.key_id ≢ k.key_id) ks × NewIds keys ks

pub checked_key-ok :
    (x : Texts) (k : Key) {k' : Key}
    → checked_key x k ≡ ok k'
    → (k'.key_id ≡ x.strip k.key_id)
      × (k'.key_hash ≡ x.lower (x.strip k.key_hash))
      × (is_key_hash k'.key_hash ≡ true)
      × (k'.revoked_at ≡ k.revoked_at)
unfolding checked_key
checked_key-ok x k e = (ground arith, ground arith, ground arith, ground arith)

pub checked_key-expires :
    (x : Texts) (k : Key) {k' : Key} → checked_key x k ≡ ok k' → k'.expires_at ≡ k.expires_at
unfolding checked_key
checked_key-expires x k e = ground arith

-- A chain that succeeds: its second part from the answer of the first.
pub >>=-inversion :
    {A B : Type 0} (first : Result A) (next : A → Result B) {b : B}
    → (first >>= next) ≡ ok b
    → (a : A) × (next a ≡ ok b) × (first ≡ ok a)
>>=-inversion (err e) next done = absurd (cc done)
>>=-inversion (ok a) next done = (a, done, refl)

pub Result-cases :
    {A : Type 0} (r : Result A) → ((e : Failure) × (r ≡ err e)) ⊎ ((a : A) × (r ≡ ok a))
Result-cases (ok a) = inr (a, refl)
Result-cases (err e) = inl (e, refl)

pub ok-eq : {A : Type 0} {a b : A} → ok a ≡ ok b → a ≡ b
ok-eq h = cc

module _ (x : Texts) (laws : Laws x) where
  checked_key-Normal : (k : Key) {k' : Key} → checked_key x k ≡ ok k' → Normal x k'
  checked_key-Normal k e =
      let (id, h, plain, rest) = checked_key-ok x k e in (rw id (laws.strip_twice k.key_id), plain)

  new_record-Normal :
      (key_id : String) (now : ℕ) (name h hint : String) (expiry : Option Moment) (origin : String)
      {k : Key}
      → new_record x key_id now name h hint expiry origin ≡ ok k
      → Normal x k
  unfolding new_record
  new_record-Normal key_id now name h hint expiry origin e =
      let (t, made, et) = >>=-inversion (normalize_expiry expiry) _ e in
      checked_key-Normal
        (record {
          key_id = key_id;
          name = name;
          key_hash = h;
          key_hint = some hint;
          created_at = now;
          updated_at = now;
          expires_at = t;
          revoked_at = none;
          origin = origin;
        })
        made

  record_from_import-Normal :
      (key_id : String) (now : ℕ) (item : Import) {k : Key}
      → record_from_import x key_id now item ≡ ok k
      → Normal x k
  unfolding record_from_import
  record_from_import-Normal key_id now item e =
      let (source, made, es) = >>=-inversion (hash_of_import x item item.raw_key) _ e in
      new_record-Normal key_id now item.name source.0 source.1 item.expires_at "imported" made

  generated-Normal :
      (key_id : String) (now : ℕ) (raw name : String) (expiry : Option Moment) {ks : List Key}
      → generated x key_id now raw name expiry ≡ ok ks
      → All (Normal x) ks × (repeats ks ≡ false)
  unfolding generated
  generated-Normal key_id now raw name expiry e =
      let (h, more, eh) = >>=-inversion (hash_api_key x raw) _ e in
      let (k, done, ek) =
        >>=-inversion (new_record x key_id now name h (key_hint raw) expiry "generated") _ more in
      let n = new_record-Normal key_id now name h (key_hint raw) expiry "generated" ek in
      subst (λ l. All (Normal x) l × (repeats l ≡ false)) (ok-eq done)
        ((n, tt), (unfold repeats has_hash in refl))

  import_records-Normal :
      (items : List (Import × String × ℕ)) {ks : List Key}
      → import_records x items ≡ ok ks
      → All (Normal x) ks
  unfolding import_records
  import_records-Normal [] e = subst (All (Normal x)) (ok-eq e) tt
  import_records-Normal ((item, key_id, now) ∷ items) e =
      let (k, more, ek) = >>=-inversion (record_from_import x key_id now item) _ e in
      let (ks, done, eks) = >>=-inversion (import_records x items) _ more in
      subst (All (Normal x)) (ok-eq done)
        (record_from_import-Normal key_id now item ek, import_records-Normal items eks)

  -- what a call would store
  abbrev pub made_of : Call → Result (List Key)
  made_of (creating key_id now raw name expires_at write) =
      generated x key_id now raw name expires_at
  made_of (importing items write) = import_records x items >>= distinct x
  made_of (updating key_id name expires_at now write) = err Failure.invalid
  made_of (revoking key_id now write) = err Failure.invalid

  distinct-ok : (ks js : List Key) → distinct x ks ≡ ok js → (ks ≡ js) × (repeats js ≡ false)
  unfolding distinct
  distinct-ok ks js e = elim (Bool-cases (repeats ks)) [
    | inl t ↦ absurd (cc (rw t at e))
    | inr f ↦
        let same : ks ≡ js = ok-eq (rw f at e) in (same, subst (λ l. repeats l ≡ false) same f)
  ]

  pub made_of-Normal :
      (c : Call) {ks : List Key} → made_of c ≡ ok ks → All (Normal x) ks × (repeats ks ≡ false)
  made_of-Normal (creating key_id now raw name expires_at write) e =
      generated-Normal key_id now raw name expires_at e
  made_of-Normal (importing items write) {ks} e =
      let (js, done, ejs) = >>=-inversion (import_records x items) _ e in
      let (same, once) = distinct-ok js ks done in
      (subst (All (Normal x)) same (import_records-Normal items ejs), once)
  made_of-Normal (updating key_id name expires_at now write) e = absurd (cc e)
  made_of-Normal (revoking key_id now write) e = absurd (cc e)
