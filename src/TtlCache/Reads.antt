-- ===== src/TtlCache/Reads.antt =====
-- providers/_ttl.py: what a call returns while an entry lives, and when it calls the loader.
use quick_price.Prelude.{
  ℕ, ◌+◌, ◌≤◌, ◌<◌, ◌≡◌, ◌≢◌, refl, true, false, Option, none, some, arith, ltb, ◌==◌, ◌||◌, ite,
  lt→ltb, if◌then◌else◌,
}
use quick_price.Prelude.Dict.{Dict, get, put, get-put_self, get-put_ne, get-pop}
use quick_price.TtlCache.{
  Entry, Loaded, value, failed, crashed, Outcome, returned, raised, loader_crashed, error_lifetime,
  read, fresh, store, locked, get_or_load, discard,
}

module _ {V E : Type 0} where
  -- What a loader's answer is to the caller.
  abbrev pub answer : Loaded V E → Outcome V E
  answer (value v) = returned v
  answer (failed x) = raised x
  answer crashed = loader_crashed

  -- How long a loader's answer lives; an unexpected exception is not kept.
  abbrev pub lifetime : ℕ → ℕ → Loaded V E → ℕ
  lifetime ttl error_ttl (value v) = ttl
  lifetime ttl error_ttl (failed x) = error_ttl
  lifetime ttl error_ttl crashed = 0

module _ {K V E : Type 0} (dec : Discrete K) where
  pub locked_miss :
      (entries : Dict K (Entry V E)) (key : K) (ttl error_ttl now : ℕ) (l : Loaded V E)
      → fresh dec entries key now ≡ none
      → locked dec entries key ttl error_ttl now l
        ≡ ((store dec entries key ttl error_ttl now l).0, answer l, true)
  unfolding locked
  locked_miss entries key ttl error_ttl now (value v) h = rw (h, locked)
  locked_miss entries key ttl error_ttl now (failed x) h = rw (h, locked)
  locked_miss entries key ttl error_ttl now crashed h = rw (h, locked)

  pub locked_hit :
      (entries : Dict K (Entry V E)) (key : K) (ttl error_ttl now : ℕ) (l : Loaded V E)
      (e : Entry V E)
      → fresh dec entries key now ≡ some e
      → locked dec entries key ttl error_ttl now l ≡ (entries, read e, false)
  unfolding locked
  locked_hit entries key ttl error_ttl now l e h = rw (h, locked)

  pub fresh-expired :
      (entries : Dict K (Entry V E)) (key : K) (now later : ℕ)
      → fresh dec entries key now ≡ none
      → now ≤ later
      → fresh dec entries key later ≡ none
  unfolding fresh
  fresh-expired entries key now later h l = ground arith

  pub fresh-put :
      (entries : Dict K (Entry V E)) (key : K) (e : Entry V E) (now : ℕ)
      → fresh dec (put dec key e entries) key now ≡ (if ltb now e.expires_at then some e else none)
  unfolding fresh
  fresh-put entries key e now = rw get-put_self

  fresh-store :
      (entries : Dict K (Entry V E)) (key : K) (ttl error_ttl started later : ℕ) (l : Loaded V E)
      → later < started + lifetime ttl error_ttl l
      → started ≤ later
      → (e : Entry V E) × (fresh dec (store dec entries key ttl error_ttl started l).0 key later
          ≡ some e)
        × (read e ≡ answer l)
  unfolding store read
  fresh-store entries key ttl error_ttl started later (value v) h k = (
    record { expires_at = started + ttl; value = some v; error = none },
    rw fresh-put (rw (lt→ltb _ _ h)),
    refl,
  )
  fresh-store entries key ttl error_ttl started later (failed x) h k = (
    record { expires_at = started + error_ttl; value = none; error = some x },
    rw fresh-put (rw (lt→ltb _ _ h)),
    refl,
  )
  fresh-store entries key ttl error_ttl started later crashed h k = absurd (omega arith)

  -- Under the lock, a load is followed by an answer from the cache: until the loader's answer
  -- expires, any later holder of the lock gets it again, and calls no loader.
  locked-cached :
      (entries : Dict K (Entry V E)) (key : K) (ttl error_ttl started later : ℕ)
      (first second : Loaded V E)
      → fresh dec entries key started ≡ none
      → started ≤ later
      → later < started + lifetime ttl error_ttl first
      → locked dec
          (locked dec entries key ttl error_ttl started first).0
          key
          ttl
          error_ttl
          later
          second
        ≡ ((locked dec entries key ttl error_ttl started first).0, answer first, false)
  locked-cached entries key ttl error_ttl started later first second h l k =
      let (e, live, same) = fresh-store entries key ttl error_ttl started later first k l in
      rw (locked_miss entries key ttl error_ttl started first h)
        (rw (locked_hit _ key ttl error_ttl later second e live) (rw same))

  get_or_load_miss :
      (entries : Dict K (Entry V E)) (key : K) (ttl : ℕ) (error_ttl : Option ℕ) (now started : ℕ)
      (l : Loaded V E) (meanwhile : Dict K (Entry V E) → Dict K (Entry V E))
      → (ttl == 0 || error_lifetime ttl error_ttl == 0) ≡ false
      → fresh dec entries key now ≡ none
      → fresh dec (meanwhile entries) key started ≡ none
      → get_or_load dec meanwhile entries key ttl error_ttl now started l ≡ (
        (store dec (meanwhile entries) key ttl (error_lifetime ttl error_ttl) started l).0,
        answer l,
        true,
      )
  unfolding get_or_load
  get_or_load_miss entries key ttl et now started l m p f g =
      rw p
        (rw (f, get_or_load) (locked_miss (m entries) key ttl (error_lifetime ttl et) started l g))

  get_or_load_hit :
      (entries : Dict K (Entry V E)) (key : K) (ttl : ℕ) (error_ttl : Option ℕ) (now started : ℕ)
      (l : Loaded V E) (meanwhile : Dict K (Entry V E) → Dict K (Entry V E)) (e : Entry V E)
      → (ttl == 0 || error_lifetime ttl error_ttl == 0) ≡ false
      → fresh dec entries key now ≡ some e
      → get_or_load dec meanwhile entries key ttl error_ttl now started l ≡ (entries, read e, false)
  unfolding get_or_load
  get_or_load_hit entries key ttl et now started l m e p f = rw p (rw (f, get_or_load))

  -- A call that finds no live entry, before the lock or under it, loads: it returns or raises what
  -- the loader did. A repeated call by then gets the same answer with no call of the loader, for
  -- as long as that answer lives, whatever happens to the entries while it would wait.
  pub get_or_load-cached :
      (entries : Dict K (Entry V E)) (key : K) (ttl : ℕ) (error_ttl : Option ℕ)
      (now started later again : ℕ) (first second : Loaded V E)
      (meanwhile meantime : Dict K (Entry V E) → Dict K (Entry V E))
      → 0 < ttl
      → 0 < error_lifetime ttl error_ttl
      → fresh dec entries key now ≡ none
      → fresh dec (meanwhile entries) key started ≡ none
      → started ≤ later
      → later < started + lifetime ttl (error_lifetime ttl error_ttl) first
      → let call = get_or_load dec meanwhile entries key ttl error_ttl now started first in
        (call.1 ≡ answer first)
        × (call.2 ≡ true)
        × (get_or_load dec meantime call.0 key ttl error_ttl later again second
            ≡ (call.0, answer first, false))
  get_or_load-cached entries key ttl et now started later again first second m m' p q f g l k =
      let life : ℕ = error_lifetime ttl et in
      let (e, live, same) = fresh-store (m entries) key ttl life started later first k l in
      let positive : (ttl == 0 || life == 0) ≡ false = ground arith in
      rw (get_or_load_miss entries key ttl et now started first m positive f g) (
        refl,
        refl,
        rw (get_or_load_hit _ key ttl et later again second m' e positive live) (rw same),
      )

  -- A call for one key leaves every other key's entry as it was.
  get-locked_ne :
      (entries : Dict K (Entry V E)) (key other : K) (ttl error_ttl now : ℕ) (l : Loaded V E)
      → key ≢ other
      → get dec other (locked dec entries key ttl error_ttl now l).0 ≡ get dec other entries
  unfolding locked store
  get-locked_ne entries key other ttl error_ttl now (value v) h = ground (
    arith,
    get-put_ne dec key other (record { expires_at = now + ttl; value = some v; error = none })
        entries,
  )
  get-locked_ne entries key other ttl error_ttl now (failed x) h = ground (
    arith,
    get-put_ne dec key other (record { expires_at = now + error_ttl; value = none; error = some x })
        entries,
  )
  get-locked_ne entries key other ttl error_ttl now crashed h = ground arith

  -- A discarded key has no live entry, and the others keep theirs.
  fresh-discard :
      (entries : Dict K (Entry V E)) (key other : K) (now : ℕ)
      → fresh dec (discard dec key entries) other now
        ≡ ite (dec key other) none (fresh dec entries other now)
  unfolding fresh discard
  fresh-discard entries key other now = ground (arith, get-pop dec key other entries)
