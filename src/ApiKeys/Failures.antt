-- ===== src/ApiKeys/Failures.antt =====
-- api_keys.py: calls that fail.
use quick_price.Prelude.{
  ℕ, ◌≡◌, refl, inl, inr, ◌||◌, Option, String, List, length, ◌==◌, ltb, Bool-cases, arith,
}
use quick_price.ApiKeys.{Texts, Key, Failure, Result, ok, err, ◌>>=◌, normalize_expiry}
use quick_price.ApiKeys.Manager.{
  Manager, store, change, Call, creating, importing, updating, revoking, perform, create,
  import_many, import_records, distinct, generated, update, renamed, normalized_name, revoke,
  stored,
}

stored-err :
    (m : Manager) (r : Result (List Key)) (write : Option ℕ) (e : Failure)
    → (stored m r write).1 ≡ err e
    → (stored m r write).0 ≡ m
unfolding stored store
stored-err m (err f) write e h = refl
stored-err m (ok made) write e h = ground arith

module _ (x : Texts) where
  change-err :
      (m : Manager) (i : String) (f : Key → Key) (write : Option ℕ) (e : Failure)
      → (change x m i f write).1 ≡ err e
      → (change x m i f write).0 ≡ m
  unfolding change
  change-err m i f write e h = ground arith

  renamed-err :
      (m : Manager) (i : String) (name : Result String) (expiry : Result (Option ℕ)) (now : ℕ)
      (write : Option ℕ) (e : Failure)
      → (renamed x m i name expiry now write).1 ≡ err e
      → (renamed x m i name expiry now write).0 ≡ m
  unfolding renamed
  renamed-err m i (err a) expiry now write e h = refl
  renamed-err m i (ok n) (err a) now write e h = refl
  renamed-err m i (ok n) (ok t) now write e h = change-err m i _ write e h

  -- A call that fails, by its own tests or in the storage, leaves the keys in memory as they were.
  pub perform-err :
      (m : Manager) (c : Call) (e : Failure) → (perform x m c).1 ≡ err e → (perform x m c).0 ≡ m
  unfolding perform create import_many update revoke
  perform-err m (creating key_id now raw name expiry write) e h =
      stored-err m (generated x key_id now raw name expiry) write e h
  perform-err m (importing items write) e h =
      elim (Bool-cases (length items == 0 || ltb 100 (length items))) [
        | inl bad ↦ rw bad refl
        | inr good ↦
            rw good (stored-err m (import_records x items >>= distinct x) write e (rw good at h))
      ]
  perform-err m (updating i name expiry now write) e h =
      renamed-err m i (normalized_name x name) (normalize_expiry expiry) now write e h
  perform-err m (revoking i now write) e h = change-err m i _ write e h
