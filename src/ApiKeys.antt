-- ===== src/ApiKeys.antt =====
-- api_keys.py: API keys that are kept in the storage and in memory, and storage/records.py: their
-- records. `Texts` holds what Python and hashlib do to texts. A datetime in UTC is a natural number;
-- `naive` is one without a timezone.
pub mod Manager
pub mod Start
pub mod Table
pub mod Replaced
pub mod Forms
pub mod Effects
pub mod Runs
pub mod Lifecycle
pub mod Creation
pub mod Failures
mod Scenarios
use Prim.Native.Char.{code}
use Prim.Native.String as Native
use text.Mathlib.Text.{◌==◌ as str_eq}
use quick_price.Prelude.{
  ℕ, zero, suc, ◌-◌, Bool, true, false, ◌&&◌, ◌||◌, Option, none, some, String, List, [], ◌∷◌, ltb,
  leb, ◌==◌, if◌then◌else◌,
}

pub record Texts : Type 0 where
  pub strip : String → String
  pub lower : String → String
  pub sha256_hex : String → String

-- `ApiKeyRecord`
pub record Key : Type 0 where
  pub key_id : String
  pub name : String
  pub key_hash : String
  pub key_hint : Option String
  pub created_at : ℕ
  pub updated_at : ℕ
  pub expires_at : Option ℕ
  pub revoked_at : Option ℕ
  pub origin : String

-- `invalid` is a ValueError; `failed` an exception of the storage.
pub data Failure : Type 0 where
  not_found duplicate unavailable invalid : Failure
  failed : ℕ → Failure

pub data Result (A : Type 0) : Type 0 where
  err : Failure → Result A
  ok : A → Result A

infixl 5 ◌>>=◌
abbrev pub ◌>>=◌ : {A B : Type 0} → Result A → (A → Result B) → Result B
err failure >>= next = err failure
ok answer >>= next = next answer

pub data Moment : Type 0 where
  aware : ℕ → Moment
  naive : Moment

-- `hash_api_key`
unfoldable pub hash_api_key : Texts → String → Result String
hash_api_key x raw =
    if str_eq raw "" then err invalid else ok (Native.◌++◌ "sha256:" (x.sha256_hex raw))

-- `raw[:n]` and `raw[-n:]`
unfoldable pub first_of : ℕ → String → String
first_of zero s = ""
first_of (suc n) String.[] = ""
first_of (suc n) (String.◌∷◌ c s) = String.◌∷◌ c (first_of n s)

unfoldable pub without : ℕ → String → String
without zero s = s
without (suc n) String.[] = ""
without (suc n) (String.◌∷◌ c s) = without n s

unfoldable pub key_hint : String → String
unfolding first_of without
key_hint raw =
    Native.◌++◌ (first_of 10 raw) (Native.◌++◌ "..." (without (Native.count raw - 4) raw))

is_hex : ℕ → Bool
is_hex c = (leb b'0' c && leb c b'9') || (leb b'a' c && leb c b'f')

-- as many hexadecimal digits as asked for, and nothing else
hex_digits : ℕ → String → Bool
unfolding is_hex
hex_digits zero String.[] = true
hex_digits zero (String.◌∷◌ c s) = false
hex_digits (suc n) String.[] = false
hex_digits (suc n) (String.◌∷◌ c s) = is_hex (code c) && hex_digits n s

-- `re.fullmatch(r"sha256:[0-9a-f]{64}", s)`
unfoldable pub is_key_hash : String → Bool
unfolding hex_digits first_of without
is_key_hash s = str_eq (first_of 7 s) "sha256:" && hex_digits 64 (without 7 s)

-- `_required_text`
required_text : Texts → String → Result String
required_text x s =
    let stripped = x.strip s in if str_eq stripped "" then err invalid else ok stripped

required_hint : Texts → Option String → Result (Option String)
unfolding required_text
required_hint x none = ok none
required_hint x (some hint) =
    required_text x hint >>= λ h. if ltb 32 (Native.count h) then err invalid else ok (some h)

is_origin : String → Bool
is_origin s = str_eq s "generated" || str_eq s "imported" || str_eq s "legacy"

named_hash : String → String → Result String
unfolding is_key_hash
named_hash name h =
    if ltb 80 (Native.count name) then err invalid else if is_key_hash h then ok h else err invalid

with_origin : String → Key → Result Key
unfolding is_origin
with_origin origin k = if is_origin origin then ok (record k { origin = origin }) else err invalid

-- `ApiKeyRecord.__post_init__`, for a record whose times are in UTC
unfoldable pub checked_key : Texts → Key → Result Key
unfolding required_text required_hint with_origin named_hash
checked_key x k = do
  key_id ← required_text x k.key_id
  name ← required_text x k.name
  key_hash ← named_hash name (x.lower (x.strip k.key_hash))
  hint ← required_hint x k.key_hint
  with_origin (x.lower (x.strip k.origin))
      (record k { key_id = key_id; name = name; key_hash = key_hash; key_hint = hint })

-- `_normalize_expiry`
unfoldable pub normalize_expiry : Option Moment → Result (Option ℕ)
normalize_expiry none = ok none
normalize_expiry (some naive) = err invalid
normalize_expiry (some (aware t)) = ok (some t)

-- `_new_record`, with the `uuid7` and the time that it takes
unfoldable pub new_record :
    Texts → String → ℕ → String → String → String → Option Moment → String → Result Key
unfolding normalize_expiry checked_key
new_record x key_id now name key_hash hint expires_at origin = do
  expiry ← normalize_expiry expires_at
  checked_key x (record {
    key_id = key_id;
    name = name;
    key_hash = key_hash;
    key_hint = some hint;
    created_at = now;
    updated_at = now;
    expires_at = expiry;
    revoked_at = none;
    origin = origin;
  })

-- `ApiKeyImport`, with what it is made of
pub record Import : Type 0 where
  pub name : String
  pub expires_at : Option Moment
  pub raw_key : Option String
  pub given_hash : Option String

is_raw_key : String → Bool
is_raw_key raw = leb 20 (Native.count raw) && leb (Native.count raw) 256

checked_source : Texts → Import → Option String → Option String → Result Import
unfolding is_raw_key is_key_hash
checked_source x item none none = err invalid
checked_source x item (some raw) (some h) = err invalid
checked_source x item (some raw) none = if is_raw_key raw then ok item else err invalid
checked_source x item none (some h) =
    let normalized = x.lower (x.strip h) in
    if is_key_hash normalized
    then ok (record item { given_hash = some normalized })
    else err invalid

checked_expiry : Import → Option Moment → Result Import
checked_expiry item (some naive) = err invalid
checked_expiry item none = ok item
checked_expiry item (some (aware t)) = ok item

-- `ApiKeyImport.__post_init__`
unfoldable pub checked_import : Texts → Import → Result Import
unfolding checked_source checked_expiry
checked_import x item =
    let name = x.strip item.name in
    if str_eq name "" || ltb 80 (Native.count name)
    then err invalid
    else checked_source x (record item { name = name }) item.raw_key item.given_hash >>= λ made.
        checked_expiry made made.expires_at

unfoldable pub hash_of_import : Texts → Import → Option String → Result (String × String)
unfolding hash_api_key key_hint
hash_of_import x item (some raw) = hash_api_key x raw >>= λ h. ok (h, key_hint raw)
hash_of_import x item none = elim item.given_hash [
  | some h ↦ ok (x.lower (x.strip h), "Imported hash")
  | none ↦ ok (x.lower (x.strip "None"), "Imported hash")
]

-- `_record_from_import`
unfoldable pub record_from_import : Texts → String → ℕ → Import → Result Key
unfolding hash_of_import new_record
record_from_import x key_id now item = do
  (h, hint) ← hash_of_import x item item.raw_key
  new_record x key_id now item.name h hint item.expires_at "imported"
