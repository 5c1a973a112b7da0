-- ===== src/Synthetic/Checked.antt =====
-- providers/synthetic.py: when two component quotes make a synthetic quote, and what it says.
use quick_price.Prelude.{
  ℕ, ◌+◌, ◌≤◌, min, ◌≡◌, refl, ◌∙◌, true, false, Option, none, some, String, arith,
}
use quick_price.Prelude.Int.{ℤ, pos, negsuc}
use quick_price.Synthetic.Base.{Arithmetic, Recipe, ok, positive, combined}
use quick_price.Synthetic.Quotes.{
  Quote, Texts, exceeds, is_stale, five_seconds, check_ages, check_skew, validate_components,
  finish_quote, synthetic_quote,
}

-- The two times are apart by at most the skew of a recipe.
abbrev pub Near : ℤ → ℕ → ℕ → Type 0
Near (negsuc n) a b = ⊥
Near (pos skew) a b = (a ≤ b + skew) × (b ≤ a + skew)

-- A time is at most as old as a maximum age, where there is one.
abbrev pub Young : Option ℕ → ℕ → ℕ → Type 0
Young none time now = Unit
Young (some maximum) time now = now ≤ time + maximum

abbrev pub Fresh : Recipe → ℕ → ℕ → ℕ → Type 0
Fresh r now a b =
    Near r.max_skew a b
    × (a ≤ now + five_seconds)
    × (b ≤ now + five_seconds)
    × Young r.left_max_age a now
    × Young r.right_max_age b now

Young-is_stale : (m : Option ℕ) (time now : ℕ) → Young m time now → is_stale m time now ≡ false
unfolding is_stale
Young-is_stale none time now h = refl
Young-is_stale (some m) time now h = ground arith

ages-check_ages :
    (r : Recipe) (now : ℕ) (a b : Quote)
    → a.as_of ≤ now + five_seconds
    → b.as_of ≤ now + five_seconds
    → Young r.left_max_age a.as_of now
    → Young r.right_max_age b.as_of now
    → check_ages r now a b ≡ ok (min a.as_of b.as_of)
unfolding check_ages
ages-check_ages r now a b h k x y = ground (
  arith,
  Young-is_stale r.left_max_age a.as_of now x,
  Young-is_stale r.right_max_age b.as_of now y,
)

Near-check_skew :
    (s : ℤ) (r : Recipe) (now : ℕ) (a b : Quote)
    → Near s a.as_of b.as_of
    → check_skew s r now a b ≡ check_ages r now a b
unfolding check_skew exceeds
Near-check_skew (negsuc n) r now a b h = absurd h
Near-check_skew (pos s) r now a b h = ground arith

module _ (ar : Arithmetic) (texts : Texts) (r : Recipe) (now : ℕ) (symbol : String)
    (a b : Quote) where
  -- The price of a quote by the operation, where that is a price.
  abbrev pub IsPrice : ℕ → Type 0
  IsPrice p = (combined ar r.operation a.price b.price ≡ some p) × (ar.is_positive p ≡ true)

  finish_quote_total :
      (t p : ℕ)
      → (q : Quote) × (finish_quote texts r symbol a b (ok t) (ok p) ≡ ok q) × (q.price ≡ p)
  unfolding finish_quote
  finish_quote_total t p = (_, refl, refl)

  positive_total :
      (p : ℕ) → IsPrice p → positive ar (combined ar r.operation a.price b.price) ≡ ok p
  unfolding positive
  positive_total p i = rw (i.0, i.1) refl

  validate_components_total :
      Fresh r now a.as_of b.as_of → validate_components r now a b ≡ ok (min a.as_of b.as_of)
  unfolding validate_components
  validate_components_total f =
      Near-check_skew r.max_skew r now a b f.0 ∙ ages-check_ages r now a b f.1 f.2 f.3 f.4

  -- Two such quotes with a positive price always make a quote, of that price.
  pub synthetic_quote_total :
      (p : ℕ)
      → Fresh r now a.as_of b.as_of
      → IsPrice p
      → (q : Quote) × (synthetic_quote ar texts r now symbol a b ≡ ok q) × (q.price ≡ p)
  unfolding synthetic_quote
  synthetic_quote_total p f i =
      let (q, e, price) = finish_quote_total (min a.as_of b.as_of) p in
      (q, rw (validate_components_total f, positive_total p i) e, price)
