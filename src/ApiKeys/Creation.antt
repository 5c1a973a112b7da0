-- ===== src/ApiKeys/Creation.antt =====
-- api_keys.py: new keys.
use Prim.Native.String as Native
use text.Mathlib.Text.{◌==◌ as str_eq}
use text.Mathlib.TextEquality.{eq_iff}
use mathlib.Core.Path.{subst}
use quick_price.Prelude.{
  ltb, ℕ, ◌≡◌, refl, sym, ap, ◌∙◌, ◌⊎◌, inl, inr, true, false, Option, none, some, String, List, [],
  ◌∷◌, ◌++◌, if◌then◌else◌, Bool-cases, Option-cases, arith,
}
use quick_price.ApiKeys.{
  naive, aware, is_key_hash, new_record, normalize_expiry, Texts, Key, Result, ok, err, Moment,
  hash_api_key, key_hint,
}
use quick_price.ApiKeys.Manager.{
  is_active, Manager, last_match, authenticate_digest, sort_keys, has_hash, clashes, repeats, store,
  creating, create, generated, stored,
}
use quick_price.ApiKeys.Table.{
  sort_keys-Distinct, Distinct, holder, active_at, last_match-active, holder-sort_keys,
  holder-append, first_found,
}
use quick_price.ApiKeys.Forms.{
  checked_key-ok, checked_key-expires, Laws, NewIds, ok-eq, >>=-inversion,
}
use quick_price.ApiKeys.Effects.{FreshCall}
use quick_price.ApiKeys.Runs.{IsTable, added-Distinct}
use quick_price.ApiKeys.Lifecycle.{outcome-eq, err-ne-ok}

stored-ok :
    (m m' : Manager) (r : Result (List Key)) (write : Option ℕ) (ks : List Key)
    → stored m r write ≡ (m', ok ks)
    → (r ≡ ok ks) × (clashes ks m.keys ≡ false) × (m'.keys ≡ sort_keys (m.keys ++ ks))
unfolding stored store
stored-ok m m' (err e) write ks done = err-ne-ok (outcome-eq done).1
stored-ok m m' (ok made) write ks done = elim (Bool-cases m.is_available) [
  | inr off ↦ err-ne-ok (outcome-eq (rw off at done)).1
  | inl on ↦ elim (Bool-cases (clashes made m.keys)) [
    | inl bad ↦ err-ne-ok (outcome-eq (rw (on, bad) at done)).1
    | inr clear ↦ elim (Option-cases write) [
      | inr (n, w) ↦ err-ne-ok (outcome-eq (rw (on, clear, w) at done)).1
      | inl w ↦
          let (same_m, same_r) = outcome-eq (rw (on, clear, w) at done) in
          (
            same_r,
            subst (λ l. clashes l m.keys ≡ false) (ok-eq same_r) clear,
            ap (λ (z : Manager). z.keys) (sym same_m)
                ∙ ap (λ l. sort_keys (m.keys ++ l)) (ok-eq same_r),
          )
    ]
  ]
]

no_holder : (c : String) (keys : List Key) → has_hash c keys ≡ false → holder c keys ≡ none
unfolding holder has_hash
no_holder c [] e = refl
no_holder c (k ∷ ks) e = ground (arith, eq_iff c k.key_hash, eq_iff k.key_hash c, no_holder c ks)

holder-single :
    (c : String) (k : Key) → holder c (k ∷ []) ≡ (if str_eq c k.key_hash then some k else none)
unfolding holder
holder-single c k = refl

clashes-single :
    (keys : List Key) (k : Key) → clashes (k ∷ []) keys ≡ false → has_hash k.key_hash keys ≡ false
unfolding clashes
clashes-single keys k e = ground arith

first_found-none : (o : Option Key) → first_found o none ≡ o
first_found-none none = refl
first_found-none (some k) = refl

-- One more key in a table.
one_more :
    (keys : List Key) (k : Key) (c : String) (t : ℕ)
    → Distinct keys
    → NewIds keys (k ∷ [])
    → clashes (k ∷ []) keys ≡ false
    → last_match c t none (sort_keys (keys ++ k ∷ []))
      ≡ (if str_eq c k.key_hash then active_at t (some k) else active_at t (holder c keys))
one_more keys k c t d ids clear =
    let all = added-Distinct keys (k ∷ []) d ids (unfold repeats has_hash in refl) clear in
    last_match-active c t (sort_keys (keys ++ k ∷ [])) (sort_keys-Distinct (keys ++ k ∷ []) all)
    ∙ ap (active_at t) (holder-sort_keys c (keys ++ k ∷ []) all ∙ holder-append c keys (k ∷ []))
    ∙ split (Bool-cases (str_eq c k.key_hash))
  where
    split :
        (str_eq c k.key_hash ≡ true) ⊎ (str_eq c k.key_hash ≡ false)
        → active_at t (first_found (holder c keys) (holder c (k ∷ [])))
          ≡ (if str_eq c k.key_hash then active_at t (some k) else active_at t (holder c keys))
    split (inl e) =
        rw
          (
            no_holder c keys (
                subst (λ h. has_hash h keys ≡ false) (sym ((eq_iff c k.key_hash).0 e))
                  (clashes-single keys k clear)),
            holder-single c k,
            e,
          )
          refl
    split (inr e) = rw (holder-single c k, e) (ap (active_at t) (first_found-none (holder c keys)))

module _ (x : Texts) (laws : Laws x) where
  abbrev pub full_hash : String → String
  full_hash raw = Native.◌++◌ "sha256:" (x.sha256_hex raw)

  -- The time a key ends at is the one that was asked for, which has a time zone.
  abbrev pub Until : Option Moment → Option ℕ → Type 0
  Until none end = end ≡ none
  Until (some (aware t)) end = end ≡ some t
  Until (some naive) end = ⊥

  -- A key with an end is one before that time only.
  abbrev pub before : Option ℕ → ℕ → Key → Option Key
  before none t k = some k
  before (some end) t k = if ltb t end then some k else none

  abbrev IsMade : String → Option Moment → Key → Type 0
  IsMade raw expiry k =
      (k.key_hash ≡ full_hash raw) × Until expiry k.expires_at × (k.revoked_at ≡ none)

  normalize_expiry-Until :
      (expiry : Option Moment) (end : Option ℕ)
      → normalize_expiry expiry ≡ ok end
      → Until expiry end
  unfolding normalize_expiry
  normalize_expiry-Until none end e = sym (ok-eq e)
  normalize_expiry-Until (some naive) end e = err-ne-ok e
  normalize_expiry-Until (some (aware t)) end e = sym (ok-eq e)

  new_record-IsMade :
      (key_id : String) (now : ℕ) (raw name hint origin : String) (expiry : Option Moment) (k : Key)
      → is_key_hash (full_hash raw) ≡ true
      → new_record x key_id now name (full_hash raw) hint expiry origin ≡ ok k
      → IsMade raw expiry k
  unfolding new_record
  new_record-IsMade key_id now raw name hint origin expiry k plain e =
      let (end, rest, made) = >>=-inversion (normalize_expiry expiry) _ e in
      let given : Key = record {
        key_id = key_id;
        name = name;
        key_hash = full_hash raw;
        key_hint = some hint;
        created_at = now;
        updated_at = now;
        expires_at = end;
        revoked_at = none;
        origin = origin;
      } in
      let (id, h, formed, revoked) = checked_key-ok x given rest in
      let until = normalize_expiry-Until expiry end made in
      (
        h ∙ laws.plain_hash (full_hash raw) plain,
        subst (Until expiry) (sym (checked_key-expires x given rest)) until,
        revoked,
      )

  hash_api_key-full : (raw h : String) → hash_api_key x raw ≡ ok h → h ≡ full_hash raw
  unfolding hash_api_key
  hash_api_key-full raw h e = elim (Bool-cases (str_eq raw "")) [
    | inl f ↦ err-ne-ok (rw f at e)
    | inr f ↦ sym (ok-eq (rw f at e))
  ]

  generated-IsMade :
      (key_id : String) (now : ℕ) (raw name : String) (expiry : Option Moment) (ks : List Key)
      → is_key_hash (full_hash raw) ≡ true
      → generated x key_id now raw name expiry ≡ ok ks
      → (k : Key) × (ks ≡ k ∷ []) × IsMade raw expiry k
  unfolding generated
  generated-IsMade key_id now raw name expiry ks plain e =
      let (h, eh, hashed) = >>=-inversion (hash_api_key x raw) _ e in
      let (k, ek, last) =
        >>=-inversion (new_record x key_id now name h (key_hint raw) expiry "generated") _ eh in
      let same : h ≡ full_hash raw = hash_api_key-full raw h hashed in
      (
        k,
        sym (ok-eq ek),
        new_record-IsMade key_id now raw name (key_hint raw) "generated" expiry k plain (
            subst (λ z. new_record x key_id now name z (key_hint raw) expiry "generated" ≡ ok k)
              same last),
      )

  active_at-before :
      (t : ℕ) (k : Key) → k.revoked_at ≡ none → active_at t (some k) ≡ before k.expires_at t k
  unfolding is_active
  active_at-before t k live = elim (Option-cases k.expires_at) [
    | inl e ↦ rw (live, e) refl
    | inr (end, e) ↦ rw (live, e) refl
  ]

  -- A call of `create` that is done, on keys with ids and hashes that differ and are in the form of a
  -- record, with a new id, under the laws of texts (`Laws`) and where the hash of the raw key is in
  -- its form, gives one key, with the hash of the raw key, the expiry that was asked for and no
  -- revocation. With that hash a caller is the key until its expiry, for ever if it has none, and no
  -- key after that; with any other hash a caller is what it was before.
  pub created-authenticates :
      (m m' : Manager) (key_id : String) (now : ℕ) (raw name : String) (expiry : Option Moment)
      (write : Option ℕ) (ks : List Key)
      → IsTable x m.keys
      → FreshCall x laws m (creating key_id now raw name expiry write)
      → is_key_hash (full_hash raw) ≡ true
      → create x m key_id now raw name expiry write ≡ (m', ok ks)
      → (k : Key) × (ks ≡ k ∷ [])
        × ((k.key_hash ≡ full_hash raw) × Until expiry k.expires_at × (k.revoked_at ≡ none))
        × ((c : String) (t : ℕ)
            → authenticate_digest m' c t ≡ (
                if str_eq c (full_hash raw)
                then before k.expires_at t k
                else authenticate_digest m c t))
  unfolding create authenticate_digest
  created-authenticates m m' key_id now raw name expiry write ks table fresh plain done =
      let (made, clear, keys) =
        stored-ok m m' (generated x key_id now raw name expiry) write ks done in
      let (k, single, (hash, until, live)) =
        generated-IsMade key_id now raw name expiry ks plain made in
      let ids = subst (NewIds m.keys) single (fresh ks made) in
      let free = subst (λ l. clashes l m.keys ≡ false) single clear in
      (
        k,
        single,
        (hash, until, live),
        λ c t.
            ap (λ l. last_match c t none l) (keys ∙ ap (λ l. sort_keys (m.keys ++ l)) single)
            ∙ one_more m.keys k c t table.0 ids free
            ∙ ap (λ o. if str_eq c k.key_hash then active_at t (some k) else o)
                (sym (last_match-active c t m.keys table.0))
            ∙ ap (λ h. if str_eq c h then active_at t (some k) else last_match c t none m.keys) hash
            ∙ ap (λ o. if str_eq c (full_hash raw) then o else last_match c t none m.keys)
                (active_at-before t k live),
      )
