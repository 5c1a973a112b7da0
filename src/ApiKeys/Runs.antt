-- ===== src/ApiKeys/Runs.antt =====
-- api_keys.py: runs of calls on a manager.
use text.Mathlib.Text.{◌==◌ as str_eq}
use text.Mathlib.TextEquality.{eq_iff}
use mathlib.Core.Path.{subst}
use quick_price.Prelude.{
  ℕ, ◌≡◌, ◌≢◌, refl, sym, ap, ◌∙◌, inl, inr, true, false, none, some, String, List, [], ◌∷◌, ◌++◌,
  All, All-append, Bool-cases, Option-cases, arith,
}
use quick_price.ApiKeys.{Texts, Key}
use quick_price.ApiKeys.Manager.{
  Manager, is_active, last_match, has_hash, clashes, repeats, replace_record, Call, perform, run,
}
use quick_price.ApiKeys.Table.{
  Differ, Distinct, Alike, All-map, sort_keys-All, sort_keys-Distinct, append-Distinct,
  active_record-All, active_record-only,
}
use quick_price.ApiKeys.Replaced.{
  has_hash-sort_keys, has_hash-append, has_hash-false, Stands, replace_record-All,
  replace_record-Distinct, has_hash-replace_record,
}
use quick_price.ApiKeys.Forms.{Laws, Normal, NewIds}
use quick_price.ApiKeys.Effects.{Effect, same, added, replaced, FreshCall, perform-Effect}

-- No two keys share an id or a hash, and each has the form that its record demands.
abbrev pub IsTable : Texts → List Key → Type 0
IsTable x keys = Distinct keys × All (Normal x) keys

-- The keys with a hash, of which there is one, are revoked.
abbrev pub IsDead : String → List Key → Type 0
IsDead h keys = (has_hash h keys ≡ true) × All (λ k. k.key_hash ≡ h → k.revoked_at ≢ none) keys

All-zip : (P Q : Key → Type 0) (ks : List Key) → All P ks → All Q ks → All (λ k. P k × Q k) ks
All-zip P Q [] h i = tt
All-zip P Q (k ∷ ks) h i = ((h.0, i.0), All-zip P Q ks h.1 i.1)

All-swap :
    (R : Key → Key → Type 0) (ks js : List Key)
    → All (λ j. All (λ k. R k j) ks) js
    → All (λ k. All (R k) js) ks
All-swap R [] js h = tt
All-swap R (k ∷ ks) js h = (
  All-map (λ j. All (λ k. R k j) (k ∷ ks)) (R k) js (λ j a. a.0) h,
  All-swap R ks js
      (All-map (λ j. All (λ k. R k j) (k ∷ ks)) (λ j. All (λ k. R k j) ks) js (λ j a. a.1) h),
)

new-Distinct : (keys made : List Key) → NewIds keys made → repeats made ≡ false → Distinct made
unfolding repeats
new-Distinct keys [] ids once = tt
new-Distinct keys (k ∷ ks) ids once = (
  All-zip (λ j. j.key_id ≢ k.key_id) (λ j. j.key_hash ≢ k.key_hash) ks ids.1
      (has_hash-false k.key_hash ks (ground arith)),
  new-Distinct keys ks ids.2 (ground arith),
)

new-Differ :
    (keys made : List Key)
    → NewIds keys made
    → clashes made keys ≡ false
    → All (λ j. All (λ k. Differ k j) keys) made
unfolding clashes
new-Differ keys [] ids clear = tt
new-Differ keys (j ∷ js) ids clear = (
  All-map (λ k. (k.key_id ≢ j.key_id) × (k.key_hash ≢ j.key_hash)) (λ k. Differ k j) keys
      (λ k d. ((λ p. d.0 (sym p)), (λ p. d.1 (sym p))))
      (All-zip (λ k. k.key_id ≢ j.key_id) (λ k. k.key_hash ≢ j.key_hash) keys ids.0
        (has_hash-false j.key_hash keys (ground arith))),
  new-Differ keys js ids.2 (ground arith),
)

pub added-Distinct :
    (keys made : List Key)
    → Distinct keys
    → NewIds keys made
    → repeats made ≡ false
    → clashes made keys ≡ false
    → Distinct (keys ++ made)
added-Distinct keys made d ids once clear =
    append-Distinct keys made d (new-Distinct keys made ids once)
      (All-swap Differ keys made (new-Differ keys made ids clear))

module _ (x : Texts) (laws : Laws x) where
  pub only-Stands :
      (keys : List Key) (k k' : Key)
      → All (λ j. Alike j k → j ≡ k) keys
      → k'.key_id ≡ k.key_id
      → k'.key_hash ≡ k.key_hash
      → All (Stands k') keys
  only-Stands keys k k' only id h =
      All-map (λ j. Alike j k → j ≡ k) (Stands k') keys
        (λ j is_k p. ap (λ (q : Key). q.key_hash) (is_k (inl (p ∙ id))) ∙ sym h) only

  pub Effect-IsTable :
      (keys : List Key) {keys' : List Key}
      → Effect x laws keys keys'
      → IsTable x keys
      → IsTable x keys'
  Effect-IsTable keys same t = t
  Effect-IsTable keys (added made normal once clear ids) t = (
    sort_keys-Distinct (keys ++ made) (added-Distinct keys made t.0 ids once clear),
    sort_keys-All (Normal x) (keys ++ made) (All-append (Normal x) keys made t.1 normal),
  )
  Effect-IsTable keys (replaced k k' found id h plain) t =
      let only = (active_record-only k.key_id keys found t.0).1 in
      let normal = active_record-All (Normal x) k.key_id keys found t.1 in
      let strips : x.strip k'.key_id ≡ k'.key_id = ap x.strip id ∙ normal.0 ∙ sym id in
      (
        replace_record-Distinct k' keys t.0 (only-Stands keys k k' only id h),
        replace_record-All k' (Normal x) keys (strips, plain) t.1,
      )

  not_clashing :
      (h : String) (made keys : List Key)
      → has_hash h keys ≡ true
      → clashes made keys ≡ false
      → All (λ k. k.key_hash ≢ h) made
  unfolding clashes
  not_clashing h [] keys used clear = tt
  not_clashing h (k ∷ ks) keys used clear = (
    (λ p.
        let held : has_hash k.key_hash keys ≡ true =
          subst (λ s. has_hash s keys ≡ true) (sym p) used in
        ground arith),
    not_clashing h ks keys used (ground arith),
  )

  Effect-IsDead :
      (h : String) (keys : List Key) {keys' : List Key}
      → Effect x laws keys keys'
      → Distinct keys
      → IsDead h keys
      → IsDead h keys'
  Effect-IsDead h keys same d dead = dead
  Effect-IsDead h keys (added made normal once clear ids) d dead = (
    has_hash-sort_keys h (keys ++ made) ∙ has_hash-append h keys made ∙ rw dead.0 refl,
    sort_keys-All (λ k. k.key_hash ≡ h → k.revoked_at ≢ none) (keys ++ made)
        (All-append (λ k. k.key_hash ≡ h → k.revoked_at ≢ none) keys made dead.1
          (All-map (λ k. k.key_hash ≢ h) (λ k. k.key_hash ≡ h → k.revoked_at ≢ none) made
            (λ k n p. absurd (n p)) (not_clashing h made keys dead.0 clear))),
  )
  Effect-IsDead h keys (replaced k k' found id hash plain) d dead =
      let (active, only) = active_record-only k.key_id keys found d in
      let alive =
        active_record-All (λ j. j.key_hash ≡ h → j.revoked_at ≢ none) k.key_id keys found dead.1 in
      (
        has_hash-replace_record k' h keys (only-Stands keys k k' only id hash) ∙ dead.0,
        replace_record-All k' (λ j. j.key_hash ≡ h → j.revoked_at ≢ none) keys
            (λ p. absurd (alive (sym hash ∙ p) active)) dead.1,
      )

  abbrev pub FreshRun : Manager → List Call → Type 0
  FreshRun m [] = Unit
  FreshRun m (c ∷ cs) = FreshCall x laws m c × FreshRun (perform x m c).0 cs

  -- Under the laws of texts (`Laws`): where the keys at the start have ids and hashes that differ and
  -- are in the form of a record, and each call gives new ids to new keys, so have the keys after any
  -- calls, whatever the storage answers.
  pub run-IsTable :
      (m : Manager) (cs : List Call)
      → IsTable x m.keys
      → FreshRun m cs
      → IsTable x (run x m cs).keys
  unfolding run
  run-IsTable m [] t fresh = t
  run-IsTable m (c ∷ cs) t fresh =
      run-IsTable (perform x m c).0 cs
        (Effect-IsTable m.keys (perform-Effect x laws m c fresh.0 t.1) t) fresh.1

  pub run-IsDead :
      (h : String) (m : Manager) (cs : List Call)
      → IsTable x m.keys
      → FreshRun m cs
      → IsDead h m.keys
      → IsDead h (run x m cs).keys
  unfolding run
  run-IsDead h m [] t fresh dead = dead
  run-IsDead h m (c ∷ cs) t fresh dead =
      let effect = perform-Effect x laws m c fresh.0 t.1 in
      run-IsDead h (perform x m c).0 cs (Effect-IsTable m.keys effect t) fresh.1
        (Effect-IsDead h m.keys effect t.0 dead)

pub dead-last_match :
    (h : String) (now : ℕ) (ks : List Key)
    → All (λ k. k.key_hash ≡ h → k.revoked_at ≢ none) ks
    → last_match h now none ks ≡ none
unfolding last_match is_active
dead-last_match h now [] a = refl
dead-last_match h now (k ∷ ks) a = elim (Bool-cases (str_eq h k.key_hash)) [
  | inl e ↦
      let p : k.key_hash ≡ h = sym ((eq_iff h k.key_hash).0 e) in
      elim (Option-cases k.revoked_at) [
        | inl n ↦ absurd (a.0 p n)
        | inr (t, r) ↦ ground (arith, dead-last_match h now ks a.1)
      ]
  | inr f ↦ rw f (dead-last_match h now ks a.1)
]

pub replaced-IsDead :
    (k k' : Key) (ks : List Key) (t : ℕ)
    → All (λ j. Alike j k → j ≡ k) ks
    → k'.key_id ≡ k.key_id
    → k'.key_hash ≡ k.key_hash
    → k'.revoked_at ≡ some t
    → All (λ j. j.key_hash ≡ k.key_hash → j.revoked_at ≢ none) (replace_record k' ks)
unfolding replace_record
replaced-IsDead k k' [] t only id hash revoked = tt
replaced-IsDead k k' (j ∷ js) t only id hash revoked =
    elim (Bool-cases (str_eq j.key_id k'.key_id)) [
      | inl e ↦ rw e ((λ p q. cc), replaced-IsDead k k' js t only.1 id hash revoked)
      | inr e ↦ rw e (
        (λ p q.
            let is_k = only.0 (inr p) in
            let same : j.key_id ≡ k'.key_id = ap (λ (z : Key). z.key_id) is_k ∙ sym id in
            ground (arith, eq_iff j.key_id k'.key_id)),
        replaced-IsDead k k' js t only.1 id hash revoked,
      )
    ]
