-- ===== src/ApiKeys/Effects.antt =====
-- api_keys.py: what any call of a method does to the keys in memory.
use mathlib.Core.Path.{subst}
use text.Mathlib.TextEquality.{eq_iff}
use quick_price.Prelude.{
  ℕ, ◌≡◌, refl, sym, ap, ◌∙◌, inl, inr, true, false, ◌||◌, Option, none, some, String, List, [],
  ◌∷◌, ◌++◌, length, ◌==◌, ltb, All, Bool-cases, Option-cases, arith,
}
use quick_price.ApiKeys.{
  Texts, Key, Result, ok, err, ◌>>=◌, is_key_hash, checked_key, normalize_expiry,
}
use quick_price.ApiKeys.Manager.{
  Manager, sort_keys, clashes, repeats, active_record, replace_record, generated, import_records,
  distinct, stored, store, change, Call, creating, importing, updating, revoking, perform, create,
  import_many, update, revoke, renamed, normalized_name,
}
use quick_price.ApiKeys.Table.{active_record-All}
use quick_price.ApiKeys.Forms.{
  Laws, Normal, NewIds, checked_key-ok, Result-cases, made_of, made_of-Normal,
}

module _ (x : Texts) (laws : Laws x) where
  -- What a call does to the keys.
  pub data Effect (keys : List Key) : List Key → Type 0 where
    same : Effect keys keys
    added :
        (made : List Key)
        → All (Normal x) made
        → repeats made ≡ false
        → clashes made keys ≡ false
        → NewIds keys made
        → Effect keys (sort_keys (keys ++ made))
    replaced :
        (k k' : Key)
        → active_record k.key_id keys ≡ some k
        → k'.key_id ≡ k.key_id
        → k'.key_hash ≡ k.key_hash
        → is_key_hash k'.key_hash ≡ true
        → Effect keys (replace_record k' keys)

  stored-Effect :
      (m : Manager) (r : Result (List Key)) (write : Option ℕ)
      → ((ks : List Key) → r ≡ ok ks → All (Normal x) ks × (repeats ks ≡ false) × NewIds m.keys ks)
      → Effect m.keys (stored m r write).0.keys
  unfolding stored store
  stored-Effect m (err e) write h = same
  stored-Effect m (ok made) (some e) h = elim (Bool-cases m.is_available) [
    | inr f ↦ rw f same
    | inl t ↦ elim (Bool-cases (clashes made m.keys)) [
      | inl c ↦ rw (t, c) same
      | inr c ↦ rw (t, c) same
    ]
  ]
  stored-Effect m (ok made) none h = elim (Bool-cases m.is_available) [
    | inr f ↦ rw f same
    | inl t ↦ elim (Bool-cases (clashes made m.keys)) [
      | inl c ↦ rw (t, c) same
      | inr c ↦ let (normal, once, ids) = h made refl in rw (t, c) (added made normal once c ids)
    ]
  ]

  -- A change of the found record keeps its id and hash.
  abbrev pub Keeps : (Key → Key) → Type 0
  Keeps f = (k : Key) → ((f k).key_id ≡ k.key_id) × ((f k).key_hash ≡ k.key_hash)

  active_record-id :
      (i : String) (ks : List Key) {k : Key} → active_record i ks ≡ some k → k.key_id ≡ i
  unfolding active_record
  active_record-id i [] e = absurd (cc e)
  active_record-id i (j ∷ js) {k} e =
      ground (arith, eq_iff j.key_id i, active_record-id i js {k = k})

  pub checked_change :
      (f : Key → Key) (k k' : Key)
      → Keeps f
      → Normal x k
      → checked_key x (f k) ≡ ok k'
      → (k'.key_id ≡ k.key_id) × (k'.key_hash ≡ k.key_hash) × (is_key_hash k'.key_hash ≡ true)
  checked_change f k k' keeps normal e =
      let (id, h, plain, rest) = checked_key-ok x (f k) e in
      let (same_id, same_hash) = keeps k in
      (
        id ∙ ap x.strip same_id ∙ normal.0,
        h ∙ ap (λ s. x.lower (x.strip s)) same_hash ∙ laws.plain_hash k.key_hash normal.1,
        plain,
      )

  change-Effect :
      (m : Manager) (i : String) (f : Key → Key) (write : Option ℕ)
      → Keeps f
      → All (Normal x) m.keys
      → Effect m.keys (change x m i f write).0.keys
  unfolding change
  change-Effect m i f (some e) keeps normal = elim (Bool-cases m.is_available) [
    | inr off ↦ rw off same
    | inl on ↦ elim (Option-cases (active_record i m.keys)) [
      | inl no_key ↦ rw (on, no_key) same
      | inr (k, found) ↦ rw (on, found) same
    ]
  ]
  change-Effect m i f none keeps normal = elim (Bool-cases m.is_available) [
    | inr off ↦ rw off same
    | inl on ↦ elim (Option-cases (active_record i m.keys)) [
      | inl no_key ↦ rw (on, no_key) same
      | inr (k, found) ↦ elim (Result-cases (checked_key x (f k))) [
        | inl (e, bad) ↦ rw (on, found, bad) same
        | inr (k', good) ↦
            let (id, h, plain) =
              checked_change f k k' keeps (active_record-All (Normal x) i m.keys found normal)
                good in
            let its : active_record k.key_id m.keys ≡ some k =
              subst (λ s. active_record s m.keys ≡ some k) (sym (active_record-id i m.keys found))
                found in
            rw (on, found, good) (replaced k k' its id h plain)
      ]
    ]
  ]

  -- The ids that a call gives to new keys are new.
  abbrev pub FreshCall : Manager → Call → Type 0
  FreshCall m c = (made : List Key) → made_of x laws c ≡ ok made → NewIds m.keys made

  renamed-Effect :
      (m : Manager) (i : String) (name : Result String) (expiry : Result (Option ℕ)) (now : ℕ)
      (write : Option ℕ)
      → All (Normal x) m.keys
      → Effect m.keys (renamed x m i name expiry now write).0.keys
  unfolding renamed
  renamed-Effect m i (err e) expiry now write normal = same
  renamed-Effect m i (ok name) (err e) now write normal = same
  renamed-Effect m i (ok name) (ok expiry) now write normal =
      change-Effect m i (λ k. record k { name = name; expires_at = expiry; updated_at = now }) write
        (λ k. (refl, refl)) normal

  made_facts :
      (m : Manager) (c : Call)
      → FreshCall m c
      → (ks : List Key) → made_of x laws c ≡ ok ks
      → All (Normal x) ks × (repeats ks ≡ false) × NewIds m.keys ks
  made_facts m c fresh ks e = let (n, once) = made_of-Normal x laws c e in (n, once, fresh ks e)

  pub perform-Effect :
      (m : Manager) (c : Call)
      → FreshCall m c
      → All (Normal x) m.keys
      → Effect m.keys (perform x m c).0.keys
  unfolding perform create import_many update revoke
  perform-Effect m (creating key_id now raw name expires_at write) fresh normal =
      stored-Effect m (generated x key_id now raw name expires_at) write
        (made_facts m (creating key_id now raw name expires_at write) fresh)
  perform-Effect m (importing items write) fresh normal =
      elim (Bool-cases (length items == 0 || ltb 100 (length items))) [
        | inl bad ↦ rw bad same
        | inr good ↦ rw good (
            stored-Effect m (import_records x items >>= distinct x) write
              (made_facts m (importing items write) fresh))
      ]
  perform-Effect m (updating key_id name expires_at now write) fresh normal =
      renamed-Effect m key_id (normalized_name x name) (normalize_expiry expires_at) now write
        normal
  perform-Effect m (revoking key_id now write) fresh normal =
      change-Effect m key_id (λ k. record k { revoked_at = some now; updated_at = now }) write
        (λ k. (refl, refl)) normal
