-- ===== src/ApiKeys/Replaced.antt =====
-- api_keys.py: the hashes in use, as keys are added and replaced.
use text.Mathlib.Text.{◌==◌ as str_eq}
use text.Mathlib.TextEquality.{eq_iff}
use quick_price.Prelude.{
  ◌≡◌, ◌≢◌, refl, sym, ◌∙◌, inl, inr, false, ◌||◌, String, List, [], ◌∷◌, ◌++◌, All, Bool-cases,
  arith,
}
use quick_price.ApiKeys.{Key}
use quick_price.ApiKeys.Manager.{insert_key, sort_keys, has_hash, replace_record}
use quick_price.ApiKeys.Table.{Differ, Distinct, All-map}

pub has_hash-insert_key :
    (h : String) (k : Key) (ks : List Key)
    → has_hash h (insert_key k ks) ≡ str_eq k.key_hash h || has_hash h ks
unfolding has_hash insert_key
has_hash-insert_key h k [] = refl
has_hash-insert_key h k (j ∷ js) = ground (arith, has_hash-insert_key h k js)

pub has_hash-sort_keys : (h : String) (ks : List Key) → has_hash h (sort_keys ks) ≡ has_hash h ks
unfolding has_hash sort_keys
has_hash-sort_keys h [] = refl
has_hash-sort_keys h (k ∷ ks) =
    has_hash-insert_key h k (sort_keys ks) ∙ rw (has_hash-sort_keys h ks) refl

pub has_hash-append :
    (h : String) (ks js : List Key) → has_hash h (ks ++ js) ≡ has_hash h ks || has_hash h js
unfolding has_hash
has_hash-append h [] js = refl
has_hash-append h (k ∷ ks) js = ground (arith, has_hash-append h ks js)

pub has_hash-false :
    (h : String) (ks : List Key) → has_hash h ks ≡ false → All (λ k. k.key_hash ≢ h) ks
unfolding has_hash
has_hash-false h [] e = tt
has_hash-false h (k ∷ ks) e =
    ((λ p. ground (arith, eq_iff k.key_hash h)), has_hash-false h ks (ground arith))

-- A replacement with the hash of every key with its id.
module _ (r : Key) where
  abbrev pub Stands : Key → Type 0
  Stands k = k.key_id ≡ r.key_id → k.key_hash ≡ r.key_hash

  pub replace_record-All :
      (P : Key → Type 0) (ks : List Key) → P r → All P ks → All P (replace_record r ks)
  unfolding replace_record
  replace_record-All P [] p h = tt
  replace_record-All P (k ∷ ks) p h = elim (Bool-cases (str_eq k.key_id r.key_id)) [
    | inl e ↦ rw e (p, replace_record-All P ks p h.1)
    | inr e ↦ rw e (h.0, replace_record-All P ks p h.1)
  ]

  replace-Differ :
      (k : Key) (ks : List Key)
      → All (Differ k) ks
      → All Stands ks
      → All (Differ k) (replace_record r ks)
  unfolding replace_record
  replace-Differ k [] a h = tt
  replace-Differ k (j ∷ js) a h = elim (Bool-cases (str_eq j.key_id r.key_id)) [
    | inl e ↦
        let same = (eq_iff j.key_id r.key_id).0 e in
        rw e (((λ p. a.0.0 (same ∙ p)), (λ p. a.0.1 (h.0 same ∙ p))), replace-Differ k js a.1 h.1)
    | inr e ↦ rw e (a.0, replace-Differ k js a.1 h.1)
  ]

  -- The ids and hashes stay as they are.
  pub replace_record-Distinct :
      (ks : List Key) → Distinct ks → All Stands ks → Distinct (replace_record r ks)
  unfolding replace_record
  replace_record-Distinct [] d h = tt
  replace_record-Distinct (k ∷ ks) d h = elim (Bool-cases (str_eq k.key_id r.key_id)) [
    | inl e ↦
        let same = (eq_iff k.key_id r.key_id).0 e in
        rw e (
          All-map (Differ k) (Differ r) (replace_record r ks)
              (λ j dj. ((λ p. dj.0 (p ∙ sym same)), (λ p. dj.1 (p ∙ sym (h.0 same)))))
              (replace-Differ k ks d.0 h.1),
          replace_record-Distinct ks d.1 h.1,
        )
    | inr e ↦ rw e (replace-Differ k ks d.0 h.1, replace_record-Distinct ks d.1 h.1)
  ]

  pub has_hash-replace_record :
      (h : String) (ks : List Key)
      → All Stands ks
      → has_hash h (replace_record r ks) ≡ has_hash h ks
  unfolding has_hash replace_record
  has_hash-replace_record h [] s = refl
  has_hash-replace_record h (k ∷ ks) s =
      ground (arith, eq_iff k.key_id r.key_id, has_hash-replace_record h ks s.1)
