-- ===== src/ApiKeys/Lifecycle.antt =====
-- api_keys.py: revoked keys.
use mathlib.Core.Path.{subst}
use quick_price.Prelude.{
  ℕ, ◌≡◌, ◌≢◌, refl, sym, ap, ◌∙◌, inl, inr, true, Option, none, some, String, List, [], ◌∷◌, All,
  Bool-cases, Option-cases,
}
use quick_price.ApiKeys.{Texts, Key, Failure, Result, ok, err, checked_key}
use quick_price.ApiKeys.Manager.{
  Manager, Outcome, authenticate_digest, has_hash, active_record, replace_record, change, Call,
  revoking, perform, run, revoke,
}
use quick_price.ApiKeys.Table.{active_record-All, active_record-only, active_record-has_hash}
use quick_price.ApiKeys.Replaced.{has_hash-replace_record}
use quick_price.ApiKeys.Forms.{Laws, Normal, checked_key-ok, Result-cases, ok-eq}
use quick_price.ApiKeys.Effects.{perform-Effect, checked_change}
use quick_price.ApiKeys.Runs.{
  IsTable, IsDead, FreshRun, run-IsDead, Effect-IsTable, dead-last_match, replaced-IsDead,
  only-Stands,
}

pub outcome-eq :
    {a b : Manager} {r s : Result (List Key)} → ◌≡◌ {A = Outcome} (a, r) (b, s) → (a ≡ b) × (r ≡ s)
outcome-eq h = (ap (λ (o : Outcome). o.0) h, ap (λ (o : Outcome). o.1) h)

pub err-ne-ok {κ} : {A : Type 0} {B : Type κ} {e : Failure} {a : A} → err e ≡ ok a → B
err-ne-ok h = absurd (cc h)

-- A change that is done found an active record, and put the checked one in its place.
change-ok :
    (x : Texts) (m m' : Manager) (i : String) (f : Key → Key) (write : Option ℕ) (ks : List Key)
    → change x m i f write ≡ (m', ok ks)
    → (k : Key) × (k' : Key) × (active_record i m.keys ≡ some k)
      × (checked_key x (f k) ≡ ok k')
      × (m'.keys ≡ replace_record k' m.keys)
      × (ks ≡ k' ∷ [])
unfolding change
change-ok x m m' i f write ks e = elim (Bool-cases m.is_available) [
  | inr off ↦ err-ne-ok (outcome-eq (rw off at e)).1
  | inl on ↦ elim (Option-cases (active_record i m.keys)) [
    | inl no_key ↦ err-ne-ok (outcome-eq (rw (on, no_key) at e)).1
    | inr (k, found) ↦ elim (Option-cases write) [
      | inr (n, w) ↦ err-ne-ok (outcome-eq (rw (on, found, w) at e)).1
      | inl w ↦ elim (Result-cases (checked_key x (f k))) [
        | inl (n, bad) ↦ err-ne-ok (outcome-eq (rw (on, found, w, bad) at e)).1
        | inr (k', good) ↦
            let (same_m, same_r) = outcome-eq (rw (on, found, w, good) at e) in
            (k, k', found, good, ap (λ (z : Manager). z.keys) (sym same_m), sym (ok-eq same_r))
      ]
    ]
  ]
]

module _ (x : Texts) (laws : Laws x) where
  replaced-revoked :
      (keys : List Key) (i : String) (now : ℕ) (k k' : Key)
      → IsTable x keys
      → active_record i keys ≡ some k
      → checked_key x (record k { revoked_at = some now; updated_at = now }) ≡ ok k'
      → IsDead k'.key_hash (replace_record k' keys)
  replaced-revoked keys i now k k' table found good =
      let normal = active_record-All (Normal x) i keys found table.1 in
      let (id, hash, plain) =
        checked_change x laws (λ z. record z { revoked_at = some now; updated_at = now }) k k'
          (λ z. (refl, refl)) normal good in
      let revoked : k'.revoked_at ≡ some now =
        (checked_key-ok x (record k { revoked_at = some now; updated_at = now }) good).3 in
      let only = (active_record-only i keys found table.0).1 in
      let held : has_hash k'.key_hash keys ≡ true =
        subst (λ h. has_hash h keys ≡ true) (sym hash) (active_record-has_hash i keys found) in
      (
        has_hash-replace_record k' k'.key_hash keys (only-Stands x laws keys k k' only id hash)
            ∙ held,
        subst (λ h. All (λ j. j.key_hash ≡ h → j.revoked_at ≢ none) (replace_record k' keys))
            (sym hash) (replaced-IsDead k k' keys now only id hash revoked),
      )

  revoke-IsDead :
      (m m' : Manager) (i : String) (now : ℕ) (write : Option ℕ) (k : Key)
      → IsTable x m.keys
      → revoke x m i now write ≡ (m', ok (k ∷ []))
      → IsDead k.key_hash m'.keys
  unfolding revoke
  revoke-IsDead m m' i now write k table e =
      let (old, new, found, good, keys, single) =
        change-ok x m m' i (λ z. record z { revoked_at = some now; updated_at = now }) write
          (k ∷ []) e in
      let same_k : new ≡ k = cc in
      subst (λ z. IsDead z.key_hash m'.keys) same_k
        (subst (IsDead new.key_hash) (sym keys)
          (replaced-revoked m.keys i now old new table found good))

  revoke-IsTable :
      (m : Manager) (i : String) (now : ℕ) (write : Option ℕ)
      → IsTable x m.keys
      → IsTable x (revoke x m i now write).0.keys
  revoke-IsTable m i now write table =
      unfold perform in
      Effect-IsTable x laws m.keys
        (perform-Effect x laws m (revoking i now write) (λ made e. absurd (cc e)) table.1) table

  -- Under the laws of texts (`Laws`), and from keys with ids and hashes that differ and are in the form
  -- of a record: once a key is revoked, its hash is refused at any time and after any further calls of
  -- create, import_many, update and revoke that give new ids to new keys, whatever the storage answers.
  pub revoked-refused :
      (m m' : Manager) (i : String) (now : ℕ) (write : Option ℕ) (k : Key) (cs : List Call) (t : ℕ)
      → IsTable x m.keys
      → revoke x m i now write ≡ (m', ok (k ∷ []))
      → FreshRun x laws m' cs
      → authenticate_digest (run x m' cs) k.key_hash t ≡ none
  unfolding authenticate_digest
  revoked-refused m m' i now write k cs t table done fresh =
      let manager : (revoke x m i now write).0 ≡ m' = ap (λ (o : Outcome). o.0) done in
      dead-last_match k.key_hash t (run x m' cs).keys
        (run-IsDead x laws k.key_hash m' cs
          (subst (λ z. IsTable x z.keys) manager (revoke-IsTable m i now write table)) fresh
          (revoke-IsDead m m' i now write k table done)).1
