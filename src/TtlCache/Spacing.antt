-- ===== src/TtlCache/Spacing.antt =====
-- providers/_ttl.py: the loads of one key keep their distance.
use quick_price.Prelude.{
  ℕ, ◌+◌, ◌≤◌, ◌≡◌, ◌≢◌, refl, inl, inr, none, some, arith, min, Option-cases, if◌then◌else◌, List,
  [], ◌∷◌, All,
}
use quick_price.Prelude.Dict.{Dict}
use quick_price.TtlCache.{Entry, Loaded, value, failed, crashed, fresh, store, locked}
use quick_price.TtlCache.Reads.{locked_miss, locked_hit, fresh-put}

-- One holder of the lock: when it read the clock, and what its loader would answer.
pub record Turn (V E : Type 0) : Type 0 where
  pub at : ℕ
  pub loaded : Loaded V E

-- From `from` on, each time comes at least `gap` after the one before.
abbrev pub Spaced : ℕ → ℕ → List ℕ → Type 0
Spaced gap from [] = Unit
Spaced gap from (t ∷ ts) = (from ≤ t) × Spaced gap (t + gap) ts

-- The loader answers with a value or a `ProviderError`, which are kept.
abbrev pub IsKept : {V E : Type 0} → Turn V E → Type 0
IsKept t = t.loaded ≢ crashed

module _ {K V E : Type 0} (dec : Discrete K) (key : K) (ttl error_ttl : ℕ) where
  -- The times at which a sequence of holders of the lock calls the loader.
  unfoldable pub load_times : Dict K (Entry V E) → List (Turn V E) → List ℕ
  load_times entries [] = []
  load_times entries (t ∷ ts) =
      let result = locked dec entries key ttl error_ttl t.at t.loaded in
      let later = load_times result.0 ts in if result.2 then t.at ∷ later else later

  -- The key's entry, if it has one, lives until `until` or longer.
  Guards : ℕ → Dict K (Entry V E) → Type 0
  Guards until entries = (now : ℕ) → fresh dec entries key now ≡ none → until ≤ now

  Guards-store :
      (gap : ℕ) (entries : Dict K (Entry V E)) (now : ℕ) (l : Loaded V E)
      → gap ≤ ttl
      → gap ≤ error_ttl
      → l ≢ crashed
      → Guards (now + gap) (store dec entries key ttl error_ttl now l).0
  unfolding Guards store
  Guards-store gap entries now (value v) p q h = λ later none_left. ground (
    arith,
    fresh-put dec entries key (record { expires_at = now + ttl; value = some v; error = none })
        later,
  )
  Guards-store gap entries now (failed x) p q h = λ later none_left. ground (
    arith,
    fresh-put dec entries key
        (record { expires_at = now + error_ttl; value = none; error = some x }) later,
  )
  Guards-store gap entries now crashed p q h = absurd (h refl)

  Spaced-load_times :
      (gap until : ℕ) (entries : Dict K (Entry V E)) (turns : List (Turn V E))
      → gap ≤ ttl
      → gap ≤ error_ttl
      → All IsKept turns
      → Guards until entries
      → Spaced gap until (load_times entries turns)
  unfolding load_times Guards
  Spaced-load_times gap until entries [] p q h g = tt
  Spaced-load_times gap until entries (t ∷ ts) p q h g =
      elim (Option-cases (fresh dec entries key t.at)) [
        | inl miss ↦ rw (locked_miss dec entries key ttl error_ttl t.at t.loaded miss) (
          g t.at miss,
          Spaced-load_times gap (t.at + gap) _ ts p q h.1
              (Guards-store gap entries t.at t.loaded p q h.0),
        )
        | inr (e, hit) ↦
            rw (locked_hit dec entries key ttl error_ttl t.at t.loaded e hit)
              (Spaced-load_times gap until entries ts p q h.1 g)
      ]

  -- Loads of one key start at least the shorter lifetime apart, however many callers there are,
  -- if each loader answers with a value or an expected failure.
  pub load_times-Spaced :
      (entries : Dict K (Entry V E)) (turns : List (Turn V E))
      → All IsKept turns
      → Spaced (min ttl error_ttl) 0 (load_times entries turns)
  unfolding Guards
  load_times-Spaced entries turns h =
      Spaced-load_times (min ttl error_ttl) 0 entries turns (omega arith) (omega arith) h
        (λ now none_left. omega arith)
