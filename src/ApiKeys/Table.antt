-- ===== src/ApiKeys/Table.antt =====
-- api_keys.py: the keys in memory as a table by hash, in whatever order.
use text.Mathlib.Text.{◌==◌ as str_eq}
use text.Mathlib.TextEquality.{eq_iff}
use quick_price.Prelude.{
  ℕ, ◌≡◌, ◌≢◌, refl, sym, ◌∙◌, ◌⊎◌, inl, inr, Bool, true, false, ◌&&◌, Option, none, some, String,
  List, [], ◌∷◌, ◌++◌, if◌then◌else◌, All, All-append, Bool-cases, arith,
}
use mathlib.Core.Path.{subst}
use quick_price.ApiKeys.{Key}
use quick_price.ApiKeys.Manager.{
  is_active, last_match, insert_key, sort_keys, is_before, has_hash, active_record,
}

abbrev pub Differ : Key → Key → Type 0
Differ k j = (j.key_id ≢ k.key_id) × (j.key_hash ≢ k.key_hash)

-- No two keys share an id or a hash.
abbrev pub Distinct : List Key → Type 0
Distinct [] = Unit
Distinct (k ∷ ks) = All (Differ k) ks × Distinct ks

pub insert_key-All :
    (P : Key → Type 0) (k : Key) (ks : List Key) → P k → All P ks → All P (insert_key k ks)
unfolding insert_key
insert_key-All P k [] p h = (p, tt)
insert_key-All P k (j ∷ js) p h = elim (Bool-cases (is_before k j)) [
  | inl e ↦ rw e (p, h)
  | inr e ↦ rw e (h.0, insert_key-All P k js p h.1)
]

pub sort_keys-All : (P : Key → Type 0) (ks : List Key) → All P ks → All P (sort_keys ks)
unfolding sort_keys
sort_keys-All P [] h = tt
sort_keys-All P (k ∷ ks) h = insert_key-All P k (sort_keys ks) h.0 (sort_keys-All P ks h.1)

Differ-sym : (k j : Key) → Differ k j → Differ j k
Differ-sym k j d = ((λ e. d.0 (sym e)), (λ e. d.1 (sym e)))

insert_key-Distinct :
    (k : Key) (ks : List Key) → All (Differ k) ks → Distinct ks → Distinct (insert_key k ks)
unfolding insert_key
insert_key-Distinct k [] a d = (tt, tt)
insert_key-Distinct k (j ∷ js) a d = elim (Bool-cases (is_before k j)) [
  | inl e ↦ rw e (a, d)
  | inr e ↦
      rw e
        (insert_key-All (Differ j) k js (Differ-sym k j a.0) d.0, insert_key-Distinct k js a.1 d.1)
]

pub sort_keys-Distinct : (ks : List Key) → Distinct ks → Distinct (sort_keys ks)
unfolding sort_keys
sort_keys-Distinct [] d = tt
sort_keys-Distinct (k ∷ ks) d =
    insert_key-Distinct k (sort_keys ks) (sort_keys-All (Differ k) ks d.0)
      (sort_keys-Distinct ks d.1)

pub All-map : (P Q : Key → Type 0) (ks : List Key) → ((k : Key) → P k → Q k) → All P ks → All Q ks
All-map P Q [] f h = tt
All-map P Q (k ∷ ks) f h = (f k h.0, All-map P Q ks f h.1)

pub append-Distinct :
    (ks js : List Key)
    → Distinct ks
    → Distinct js
    → All (λ k. All (Differ k) js) ks
    → Distinct (ks ++ js)
append-Distinct [] js d e h = e
append-Distinct (k ∷ ks) js d e h =
    (All-append (Differ k) ks js d.0 h.0, append-Distinct ks js d.1 e h.1)

-- the key with a hash
unfoldable pub holder : String → List Key → Option Key
holder c [] = none
holder c (k ∷ ks) = if str_eq c k.key_hash then some k else holder c ks

abbrev pub active_at : ℕ → Option Key → Option Key
active_at now none = none
active_at now (some k) = if is_active k now then some k else none

holder-none : (c : String) (ks : List Key) → All (λ k. k.key_hash ≢ c) ks → holder c ks ≡ none
unfolding holder
holder-none c [] h = refl
holder-none c (k ∷ ks) h = ground (arith, eq_iff c k.key_hash, holder-none c ks h.1)

abbrev or_matched : Option Key → Option Key → Option Key
or_matched matched none = matched
or_matched matched (some k) = some k

last_match-holder :
    (c : String) (now : ℕ) (matched : Option Key) (ks : List Key)
    → Distinct ks
    → last_match c now matched ks ≡ or_matched matched (active_at now (holder c ks))
unfolding last_match holder
last_match-holder c now matched [] d = refl
last_match-holder c now matched (k ∷ ks) d = elim (Bool-cases (str_eq c k.key_hash)) [
  | inl e ↦
      let e' = (eq_iff c k.key_hash).0 e in
      let gone =
        holder-none c ks
          (All-map (Differ k) (λ j. j.key_hash ≢ c) ks (λ j d p. d.1 (p ∙ e')) d.0) in
      ground
        (arith, last_match-holder c now (some k) ks d.1, last_match-holder c now matched ks d.1)
  | inr e ↦ rw e (last_match-holder c now matched ks d.1)
]

-- Among distinct keys the loop finds the key with the hash, if that is active.
pub last_match-active :
    (c : String) (now : ℕ) (ks : List Key)
    → Distinct ks
    → last_match c now none ks ≡ active_at now (holder c ks)
last_match-active c now ks d =
    last_match-holder c now none ks d ∙ plain (active_at now (holder c ks))
  where
    plain : (o : Option Key) → or_matched none o ≡ o
    plain none = refl
    plain (some k) = refl

holder-insert_key :
    (c : String) (k : Key) (ks : List Key)
    → All (Differ k) ks
    → holder c (insert_key k ks) ≡ (if str_eq c k.key_hash then some k else holder c ks)
unfolding holder insert_key
holder-insert_key c k [] a = refl
holder-insert_key c k (j ∷ js) a =
    ground (arith, eq_iff c k.key_hash, eq_iff c j.key_hash, holder-insert_key c k js a.1)

pub holder-sort_keys :
    (c : String) (ks : List Key) → Distinct ks → holder c (sort_keys ks) ≡ holder c ks
unfolding holder sort_keys
holder-sort_keys c [] d = refl
holder-sort_keys c (k ∷ ks) d =
    holder-insert_key c k (sort_keys ks) (sort_keys-All (Differ k) ks d.0)
    ∙ rw (holder-sort_keys c ks d.1) refl

abbrev pub first_found : Option Key → Option Key → Option Key
first_found (some k) o = some k
first_found none o = o

pub holder-append :
    (c : String) (ks js : List Key) → holder c (ks ++ js) ≡ first_found (holder c ks) (holder c js)
unfolding holder
holder-append c [] js = refl
holder-append c (k ∷ ks) js = ground (arith, holder-append c ks js)

-- What holds of a key that is found.
pub active_record-All :
    (P : Key → Type 0) (i : String) (ks : List Key) {k : Key}
    → active_record i ks ≡ some k
    → All P ks
    → P k
unfolding active_record
active_record-All P i [] e h = absurd (cc e)
active_record-All P i (j ∷ js) {k} e h =
    elim (Bool-cases (str_eq j.key_id i && elim j.revoked_at [ none ↦ true | some t ↦ false ])) [
      | inl t ↦ let same : some j ≡ some k = rw t at e in let is_k : j ≡ k = cc in subst P is_k h.0
      | inr f ↦ active_record-All P i js (rw f at e) h.1
    ]

abbrev pub Alike : Key → Key → Type 0
Alike j k = (j.key_id ≡ k.key_id) ⊎ (j.key_hash ≡ k.key_hash)

Differ-ne-Alike : (j k : Key) → Differ k j → Alike j k → ⊥
Differ-ne-Alike j k d (inl p) = d.0 p
Differ-ne-Alike j k d (inr p) = d.1 p

pub active_record-has_hash :
    (i : String) (ks : List Key) {k : Key}
    → active_record i ks ≡ some k
    → has_hash k.key_hash ks ≡ true
unfolding active_record has_hash
active_record-has_hash i [] e = absurd (cc e)
active_record-has_hash i (j ∷ js) {k} e =
    ground (arith, eq_iff j.key_hash k.key_hash, active_record-has_hash i js {k = k})

unrevoked :
    (k : Key) (b : Bool)
    → (b && elim k.revoked_at [ none ↦ true | some t ↦ false ]) ≡ true
    → k.revoked_at ≡ none
unrevoked k b h = ground arith

-- It is active, and no other key has its id or its hash.
pub active_record-only :
    (i : String) (ks : List Key) {k : Key}
    → active_record i ks ≡ some k
    → Distinct ks
    → (k.revoked_at ≡ none) × All (λ j. Alike j k → j ≡ k) ks
unfolding active_record
active_record-only i [] e d = absurd (cc e)
active_record-only i (j ∷ js) {k} e d =
    elim (Bool-cases (str_eq j.key_id i && elim j.revoked_at [ none ↦ true | some t ↦ false ])) [
      | inl t ↦
          let same : some j ≡ some k = rw t at e in
          let is_k : j ≡ k = cc in
          (
            subst (λ q. q.revoked_at ≡ none) is_k (unrevoked j (str_eq j.key_id i) t),
            (
              (λ p. is_k),
              All-map (Differ j) (λ x. Alike x k → x ≡ k) js
                  (λ x dx p. absurd (Differ-ne-Alike x k (subst (λ q. Differ q x) is_k dx) p)) d.0,
            ),
          )
      | inr f ↦
          let rest = active_record-only i js (rw f at e) d.1 in
          let other = active_record-All (Differ j) i js (rw f at e) d.0 in
          (rest.0, ((λ p. absurd (Differ-ne-Alike j k (Differ-sym j k other) p)), rest.1))
    ]
