-- ===== src/TtlCache.antt =====
-- providers/_ttl.py, class `AsyncTtlCache`: values and expected failures with their own lifetimes.
-- Times are natural numbers in one unit. The per-key lock lets one task at a time run from the
-- second reading of the clock to the write, so the part under the lock is one step, `locked`; what
-- other tasks do to the entries while a task waits for the lock is the argument `meanwhile`.
-- An error is copied without its traceback (`_clone_error`), and is the same value here.
pub mod Reads
pub mod Spacing
mod Scenarios
use quick_price.Prelude.{
  ℕ, ◌+◌, Bool, true, false, Option, none, some, ltb, ◌==◌, ◌||◌, if◌then◌else◌, List, [], ◌∷◌,
}
use quick_price.Prelude.Dict.{Dict, get, put, pop}

pub record Entry (V E : Type 0) : Type 0 where
  pub expires_at : ℕ
  pub value : Option V
  pub error : Option E

-- What the awaited loader does: it returns, raises a `ProviderError`, or raises anything else.
pub data Loaded (V E : Type 0) : Type 0 where
  value : V → Loaded V E
  failed : E → Loaded V E
  crashed : Loaded V E

-- What the caller sees: a value, a `ProviderError`, the `ValueError` on a lifetime that is not
-- positive, the `RuntimeError` of an empty entry, or the loader's other exception.
pub data Outcome (V E : Type 0) : Type 0 where
  returned : V → Outcome V E
  raised : E → Outcome V E
  bad_ttl empty_entry loader_crashed : Outcome V E

module _ {V E : Type 0} where
  read_value : Option V → Outcome V E
  read_value none = empty_entry
  read_value (some v) = returned v

  read_error : Option E → Option V → Outcome V E
  unfolding read_value
  read_error (some x) v = raised x
  read_error none v = read_value v

  unfoldable pub read : Entry V E → Outcome V E
  unfolding read_error
  read e = read_error e.error e.value

  fresh_entry : Option (Entry V E) → ℕ → Option (Entry V E)
  fresh_entry none now = none
  fresh_entry (some e) now = if ltb now e.expires_at then some e else none

-- `error_ttl_seconds` defaults to `ttl_seconds`.
unfoldable pub error_lifetime : ℕ → Option ℕ → ℕ
error_lifetime ttl none = ttl
error_lifetime ttl (some t) = t

module _ {K V E : Type 0} (dec : Discrete K) where
  -- `entry is not None and now < entry.expires_at`
  unfoldable pub fresh : Dict K (Entry V E) → K → ℕ → Option (Entry V E)
  unfolding fresh_entry
  fresh entries key now = fresh_entry (get dec key entries) now

  -- The `try` statement: the write that follows the loader's answer.
  unfoldable pub store :
      Dict K (Entry V E) → K → ℕ → ℕ → ℕ → Loaded V E → Dict K (Entry V E) × Outcome V E
  store entries key ttl error_ttl started (value v) = (
    put dec key (record { expires_at = started + ttl; value = some v; error = none }) entries,
    returned v,
  )
  store entries key ttl error_ttl started (failed x) = (
    put dec key (record { expires_at = started + error_ttl; value = none; error = some x }) entries,
    raised x,
  )
  store entries key ttl error_ttl started crashed = (entries, loader_crashed)

  -- The body under the lock, and whether it called the loader.
  unfoldable pub locked :
      Dict K (Entry V E) → K → ℕ → ℕ → ℕ → Loaded V E → Dict K (Entry V E) × Outcome V E × Bool
  unfolding store
  locked entries key ttl error_ttl started loaded = elim (fresh entries key started) [
    | some e ↦ (entries, read e, false)
    | none ↦
        let (entries', outcome) = store entries key ttl error_ttl started loaded in
        (entries', outcome, true)
  ]

  unfoldable pub get_or_load :
      (Dict K (Entry V E) → Dict K (Entry V E))
      → Dict K (Entry V E)
      → K
      → ℕ
      → Option ℕ
      → ℕ
      → ℕ
      → Loaded V E
      → Dict K (Entry V E) × Outcome V E × Bool
  unfolding error_lifetime
  get_or_load meanwhile entries key ttl error_ttl now started loaded =
      if ttl == 0 || error_lifetime ttl error_ttl == 0
      then (entries, bad_ttl, false)
      else elim (fresh entries key now) [
        | some e ↦ (entries, read e, false)
        | none ↦ locked (meanwhile entries) key ttl (error_lifetime ttl error_ttl) started loaded
      ]

  unfoldable pub discard : K → Dict K (Entry V E) → Dict K (Entry V E)
  discard key entries = pop dec key entries
