-- ===== src/ApiKeys/Manager.antt =====
-- api_keys.py, class `ApiKeyManager`. A method that writes to the storage takes what the storage
-- answers: `none` for a write that is done, or the number of an exception. Each runs under the
-- manager's lock from its first test of the state on.
use Prim.Native.String as Native
use text.Mathlib.Text.{◌==◌ as str_eq, is_le}
use quick_price.Prelude.{
  ℕ, Bool, true, false, not, ◌&&◌, ◌||◌, Option, none, some, String, List, [], ◌∷◌, ◌++◌, ltb, leb,
  ◌==◌, if◌then◌else◌, length,
}
use quick_price.ApiKeys.{
  Texts, Key, not_found, duplicate, unavailable, invalid, failed, Result, ok, err, ◌>>=◌, Moment,
  Import, hash_api_key, key_hint, checked_key, normalize_expiry, new_record, record_from_import,
}

pub record Manager : Type 0 where
  pub keys : List Key
  pub is_available : Bool

-- `_is_active`
unfoldable pub is_active : Key → ℕ → Bool
is_active k now = elim k.revoked_at [
  | some t ↦ false
  | none ↦ elim k.expires_at [ some t ↦ ltb now t | none ↦ true ]
]

unfoldable pub any_active : List Key → ℕ → Bool
unfolding is_active
any_active [] now = false
any_active (k ∷ ks) now = is_active k now || any_active ks now

unfoldable pub configured : Manager → ℕ → Bool
unfolding any_active
configured m now = any_active m.keys now

-- the loop of `authenticate_digest`, which goes through all keys and keeps the last match
unfoldable pub last_match : String → ℕ → Option Key → List Key → Option Key
unfolding is_active
last_match candidate now matched [] = matched
last_match candidate now matched (k ∷ ks) =
    last_match candidate now
      (if str_eq candidate k.key_hash && is_active k now then some k else matched) ks

unfoldable pub authenticate_digest : Manager → String → ℕ → Option Key
authenticate_digest m candidate now = last_match candidate now none m.keys

-- the status that `_to_public` shows
unfoldable pub status : Key → ℕ → String
status k now = elim k.revoked_at [
  | some t ↦ "revoked"
  | none ↦ elim k.expires_at [
    | some t ↦ if leb t now then "expired" else "active"
    | none ↦ "active"
  ]
]

-- the keys of `list_records`, with their status
unfoldable pub list_records : Manager → Bool → ℕ → List (Key × String)
unfolding status
list_records m include_revoked now = shown m.keys
  where
    shown : List Key → List (Key × String)
    shown [] = []
    shown (k ∷ ks) =
        let rest = shown ks in
        if include_revoked || elim k.revoked_at [ none ↦ true | some t ↦ false ]
        then (k, status k now) ∷ rest
        else rest

-- the order of `sorted(..., key=lambda item: (item.created_at, item.key_id))`
unfoldable pub is_before : Key → Key → Bool
is_before a b =
    if a.created_at == b.created_at
    then is_le (Native.compare a.key_id b.key_id)
    else ltb a.created_at b.created_at

unfoldable pub insert_key : Key → List Key → List Key
insert_key k [] = k ∷ []
insert_key k (j ∷ js) = let rest = insert_key k js in if is_before k j then k ∷ j ∷ js else j ∷ rest

unfoldable pub sort_keys : List Key → List Key
unfolding insert_key
sort_keys [] = []
sort_keys (k ∷ ks) = insert_key k (sort_keys ks)

unfoldable pub has_hash : String → List Key → Bool
has_hash h [] = false
has_hash h (k ∷ ks) = str_eq k.key_hash h || has_hash h ks

-- `_ensure_unique`, where it raises
unfoldable pub clashes : List Key → List Key → Bool
unfolding has_hash
clashes [] keys = false
clashes (k ∷ ks) keys = has_hash k.key_hash keys || clashes ks keys

-- `len(set(hashes)) != len(hashes)`
unfoldable pub repeats : List Key → Bool
unfolding has_hash
repeats [] = false
repeats (k ∷ ks) = has_hash k.key_hash ks || repeats ks

-- `_active_record`
unfoldable pub active_record : String → List Key → Option Key
active_record key_id [] = none
active_record key_id (k ∷ ks) =
    if str_eq k.key_id key_id && elim k.revoked_at [ none ↦ true | some t ↦ false ]
    then some k
    else active_record key_id ks

-- `_replace_record`
unfoldable pub replace_record : Key → List Key → List Key
replace_record r [] = []
replace_record r (k ∷ ks) = (if str_eq k.key_id r.key_id then r else k) ∷ replace_record r ks

-- a call of a method, with what it meets
pub data Call : Type 0 where
  creating : String → ℕ → String → String → Option Moment → Option ℕ → Call
  importing : List (Import × String × ℕ) → Option ℕ → Call
  updating : String → String → Option Moment → ℕ → Option ℕ → Call
  revoking : String → ℕ → Option ℕ → Call

-- What a method returns: the keys that it makes or changes.
abbrev pub Outcome : Type 0
Outcome = Manager × Result (List Key)

abbrev written : Manager → Option ℕ → Manager → List Key → Outcome
written m (some e) m' made = (m, err (failed e))
written m none m' made = (m', ok made)

-- the part of `create` and `import_many` that runs under the lock
unfoldable pub store : Manager → List Key → Option ℕ → Outcome
unfolding clashes sort_keys
store m made write =
    if not m.is_available
    then (m, err unavailable)
    else if clashes made m.keys
    then (m, err duplicate)
    else written m write (record m { keys = sort_keys (m.keys ++ made) }) made

unfoldable pub stored : Manager → Result (List Key) → Option ℕ → Outcome
unfolding store
stored m (err e) write = (m, err e)
stored m (ok made) write = store m made write

module _ (x : Texts) where
  unfoldable pub generated : String → ℕ → String → String → Option Moment → Result (List Key)
  unfolding hash_api_key key_hint new_record
  generated key_id now raw name expires_at = do
    h ← hash_api_key x raw
    k ← new_record x key_id now name h (key_hint raw) expires_at "generated"
    ok (k ∷ [])

  -- `raw` is the new key, with its random part
  unfoldable pub create :
      Manager → String → ℕ → String → String → Option Moment → Option ℕ → Outcome
  unfolding generated stored
  create m key_id now raw name expires_at write =
      stored m (generated key_id now raw name expires_at) write

  -- the items with the `uuid7` and the time that each of them takes
  unfoldable pub import_records : List (Import × String × ℕ) → Result (List Key)
  unfolding record_from_import
  import_records [] = ok []
  import_records ((item, key_id, now) ∷ items) =
      record_from_import x key_id now item >>= λ k. import_records items >>= λ ks. ok (k ∷ ks)

  unfoldable pub distinct : List Key → Result (List Key)
  unfolding repeats
  distinct ks = if repeats ks then err duplicate else ok ks

  unfoldable pub import_many : Manager → List (Import × String × ℕ) → Option ℕ → Outcome
  unfolding import_records distinct stored
  import_many m items write =
      if length items == 0 || ltb 100 (length items)
      then (m, err invalid)
      else stored m (import_records items >>= distinct) write

  unfoldable pub normalized_name : String → Result String
  normalized_name name =
      let n = x.strip name in if str_eq n "" || ltb 80 (Native.count n) then err invalid else ok n

  -- Under the lock of `update` and `revoke`: the active record of an id, what it becomes, checked
  -- as every record is, and the write before that.
  unfoldable pub change : Manager → String → (Key → Key) → Option ℕ → Outcome
  unfolding active_record replace_record checked_key
  change m key_id changed write =
      if not m.is_available then (m, err unavailable) else elim (active_record key_id m.keys) [
        | none ↦ (m, err not_found)
        | some k ↦ elim write [
          | some e ↦ (m, err (failed e))
          | none ↦ elim (checked_key x (changed k)) [
            | err e ↦ (m, err e)
            | ok k' ↦ (record m { keys = replace_record k' m.keys }, ok (k' ∷ []))
          ]
        ]
      ]

  -- with the time that it is once the record is found
  unfoldable pub revoke : Manager → String → ℕ → Option ℕ → Outcome
  unfolding change
  revoke m key_id now write =
      change m key_id (λ k. record k { revoked_at = some now; updated_at = now }) write

  unfoldable pub renamed :
      Manager → String → Result String → Result (Option ℕ) → ℕ → Option ℕ → Outcome
  unfolding change
  renamed m key_id (err e) expiry now write = (m, err e)
  renamed m key_id (ok name) (err e) now write = (m, err e)
  renamed m key_id (ok name) (ok expiry) now write =
      change m key_id (λ k. record k { name = name; expires_at = expiry; updated_at = now }) write

  unfoldable pub update : Manager → String → String → Option Moment → ℕ → Option ℕ → Outcome
  unfolding renamed normalized_name normalize_expiry
  update m key_id name expires_at now write =
      renamed m key_id (normalized_name name) (normalize_expiry expires_at) now write

  unfoldable pub perform : Manager → Call → Outcome
  unfolding create import_many update revoke
  perform m (creating key_id now raw name expires_at write) =
      create m key_id now raw name expires_at write
  perform m (importing items write) = import_many m items write
  perform m (updating key_id name expires_at now write) = update m key_id name expires_at now write
  perform m (revoking key_id now write) = revoke m key_id now write

  unfoldable pub run : Manager → List Call → Manager
  run m [] = m
  run m (c ∷ cs) = run (perform m c).0 cs
