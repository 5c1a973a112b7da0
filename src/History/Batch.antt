-- ===== src/History/Batch.antt =====
-- cache.py, `load`: what the rings of a symbol hold after a batch.
use text.Mathlib.Text.{◌==◌ as str_eq}
use text.Mathlib.TextEquality.{eq_iff}
use mathlib.Core.Path.{subst}
use quick_price.Prelude.{
  ℕ, ◌+◌, ◌<◌, ◌≡◌, ◌⊎◌, refl, sym, ap, ◌∙◌, inl, inr, true, false, Option, none, some, String,
  List, [], ◌∷◌, max, ltb, ◌==◌, if◌then◌else◌, Bool-cases, arith,
}
use quick_price.Prelude.Dict.{Dict, get}
use quick_price.Prelude.Texts.{String-discrete}
use quick_price.History.{Point, Rings, bucket, insert_sorted}
use quick_price.History.Ring.{Ascending, point_at, point_at-insert_sorted}
use quick_price.History.Adds.{IsOrdered, one_start, five_start}
use quick_price.History.Cache.{or_no_rings}
use quick_price.History.Load.{
  Row, at_time, with_incoming, sort_rows, gather, latest_time, latest_of,
}
use quick_price.History.Loaded.{or_else}
use quick_price.History.Loads.{Dated}
use quick_price.History.Brought.{in_minute, in_five, in_day, newest, moved_by, gathered}

-- A moved point in a ring.
moved_at :
    (t at : ℕ) (p : Point) (ring : List Point)
    → Ascending ring
    → point_at t (insert_sorted (record p { timestamp = at }) ring)
      ≡ (if at == t then some (record p { timestamp = t }) else point_at t ring)
moved_at t at p ring a =
    point_at-insert_sorted t (record p { timestamp = at }) ring a ∙ elim (Bool-cases (at == t)) [
      | inl e ↦
          let same : at ≡ t = ground arith in
          rw e (ap (λ z. some (record p { timestamp = z })) same)
      | inr e ↦ rw e refl
    ]

abbrev at_five : ℕ → Point → Point
at_five t p = record p { timestamp = t; interval = "5m" }

abbrev Placed : ℕ → Rings → Point → Rings → Type 0
Placed t r p r' =
    (point_at t r'.one_minute
      ≡ (if in_minute t p then some (at_time p t) else point_at t r.one_minute))
    × (point_at t r'.five_minute
        ≡ (if in_five t p then some (at_five t p) else point_at t r.five_minute))
    × (point_at t r'.daily ≡ (if in_day t p then some (at_time p t) else point_at t r.daily))

with_incoming-Placed :
    (t : ℕ) (r r' : Rings) (p : Point) → IsOrdered r → with_incoming r p ≡ some r' → Placed t r p r'
unfolding with_incoming
with_incoming-Placed t r r' p (a, b, c) e =
    let five =
      moved_at t (bucket p.timestamp 5) (record p { interval = "5m" }) r.five_minute b
      ∙ ap (λ (z : ℕ). if z == t then some (at_five t p) else point_at t r.five_minute)
          (five_start p.timestamp) in
    let one =
      moved_at t (bucket p.timestamp 1) p r.one_minute a
      ∙ ap (λ (z : ℕ). if z == t then some (at_time p t) else point_at t r.one_minute)
          (one_start p.timestamp) in
    elim (Bool-cases (str_eq p.interval "1d")) [
      | inl f ↦
          let i : p.interval ≡ "1d" = (eq_iff p.interval "1d").0 f in
          subst (Placed t r p) (some_inj (rw f at e)) (
            let no_minute : str_eq p.interval "1m" ≡ false = rw i refl in
            let no_five : str_eq p.interval "5m" ≡ false = rw i refl in
            rw (f, no_minute, no_five) (refl, refl, moved_at t p.timestamp p r.daily c))
      | inr f ↦ elim (Bool-cases (str_eq p.interval "1m")) [
        | inl g ↦ subst (Placed t r p) (some_inj (rw (f, g) at e)) (rw (f, g) (one, five, refl))
        | inr g ↦ elim (Bool-cases (str_eq p.interval "5m")) [
          | inl h ↦
              subst (Placed t r p) (some_inj (rw (f, g, h) at e)) (rw (f, g, h) (refl, five, refl))
          | inr h ↦ absurd (cc (rw (f, g, h) at e))
        ]
      ]
    ]
  where
    some_inj : {x y : Rings} → some x ≡ some y → x ≡ y
    some_inj h = cc h

abbrev pub brought_minute : String → List Row → ℕ → Option Point
brought_minute s rows t = moved_by (λ p. at_time p t) (newest (in_minute t) s rows)

abbrev pub brought_five : String → List Row → ℕ → Option Point
brought_five s rows t = moved_by (at_five t) (newest (in_five t) s rows)

abbrev pub brought_day : String → List Row → ℕ → Option Point
brought_day s rows t = moved_by (λ p. at_time p t) (newest (in_day t) s rows)

module _ (d : Dict String Rings) (rows : List Row) (s : String) (t : ℕ) where
  abbrev pub gathered_rings : Rings
  gathered_rings = or_no_rings (get String-discrete s d)

  pub gathered-brought :
      Dated rows
      → gather [] (sort_rows rows) ≡ some d
      → (point_at t gathered_rings.one_minute ≡ brought_minute s rows t)
        × (point_at t gathered_rings.five_minute ≡ brought_five s rows t)
        × (point_at t gathered_rings.daily ≡ brought_day s rows t)
  unfolding point_at
  gathered-brought dated e = (
    gathered (λ r. r.one_minute) (in_minute t) (λ p. at_time p t) t refl
        (λ r r' p o f. (with_incoming-Placed t r r' p o f).0) d rows s dated e,
    gathered (λ r. r.five_minute) (in_five t) (at_five t) t refl
        (λ r r' p o f. (with_incoming-Placed t r r' p o f).1) d rows s dated e,
    gathered (λ r. r.daily) (in_day t) (λ p. at_time p t) t refl
        (λ r r' p o f. (with_incoming-Placed t r r' p o f).2) d rows s dated e,
  )

latest_time-none : (t : ℕ) (ps : List Point) → latest_time ps < t → point_at t ps ≡ none
unfolding latest_time point_at
latest_time-none t [] l = refl
latest_time-none t (p ∷ ps) l = ground (arith, latest_time-none t ps)

abbrev IsHeld : List Point → ℕ → Type 0
IsHeld ps t = (q : Point) × (point_at t ps ≡ some q)

latest_time-IsHeld : (ps : List Point) → (latest_time ps ≡ 0) ⊎ IsHeld ps (latest_time ps)
unfolding latest_time point_at
latest_time-IsHeld [] = inl refl
latest_time-IsHeld (p ∷ ps) = elim (Bool-cases (ltb p.timestamp (latest_time ps))) [
  | inl e ↦
      let m : max p.timestamp (latest_time ps) ≡ latest_time ps = ground arith in
      let apart : (p.timestamp == latest_time ps) ≡ false = ground arith in
      elim (latest_time-IsHeld ps) [
        | inl zero_time ↦ absurd (ground arith)
        | inr (q, h) ↦
            let there : IsHeld (p ∷ ps) (latest_time ps) = (q, rw apart h) in
            subst (λ z. (z ≡ 0) ⊎ IsHeld (p ∷ ps) z) (sym m) (inr there)
      ]
  | inr e ↦
      let m : max p.timestamp (latest_time ps) ≡ p.timestamp = ground arith in
      let same : (p.timestamp == p.timestamp) ≡ true = ground arith in
      let there : IsHeld (p ∷ ps) p.timestamp = (p, rw same refl) in
      subst (λ z. (z ≡ 0) ⊎ IsHeld (p ∷ ps) z) (sym m) (inr there)
]

-- The latest time of three lists of points, each told by what it holds at a time.
abbrev pub IsLatest : (ℕ → Option Point) → (ℕ → Option Point) → (ℕ → Option Point) → ℕ → Type 0
IsLatest minute five day latest =
    ((t : ℕ) → latest < t → (minute t ≡ none) × (five t ≡ none) × (day t ≡ none))
    × ((latest ≡ 0)
        ⊎ ((q : Point) × ((minute latest ≡ some q)
              ⊎ (five latest ≡ some q)
              ⊎ (day latest ≡ some q))))

pub latest_of-IsLatest :
    (r : Rings)
    → IsLatest
        (λ t. point_at t r.one_minute)
        (λ t. point_at t r.five_minute)
        (λ t. point_at t r.daily)
        (latest_of r)
unfolding latest_of
latest_of-IsLatest r =
    let a = latest_time r.one_minute in
    let b = latest_time r.five_minute in
    let c = latest_time r.daily in
    (
      λ t l. (
        latest_time-none t r.one_minute (ground arith),
        latest_time-none t r.five_minute (ground arith),
        latest_time-none t r.daily (ground arith),
      ),
      elim (largest a b c) [
        | inl e ↦
            rw e (elim (latest_time-IsHeld r.one_minute) [
              | inl z ↦ inl z
              | inr (q, h) ↦ inr (q, inl h)
            ])
        | inr (inl e) ↦ rw e (elim (latest_time-IsHeld r.five_minute) [
          | inl z ↦ inl z
          | inr (q, h) ↦ inr (q, inr (inl h))
        ])
        | inr (inr e) ↦ rw e (elim (latest_time-IsHeld r.daily) [
          | inl z ↦ inl z
          | inr (q, h) ↦ inr (q, inr (inr h))
        ])
      ],
    )
  where
    largest : (a b c : ℕ) → (max a (max b c) ≡ a) ⊎ (max a (max b c) ≡ b) ⊎ (max a (max b c) ≡ c)
    largest a b c = ground arith

-- What the rows, in any order, and the points that were there hold together.
abbrev pub with_minute : Rings → String → List Row → ℕ → Option Point
with_minute old s rows t = or_else (point_at t old.one_minute) (brought_minute s rows t)

abbrev pub with_five : Rings → String → List Row → ℕ → Option Point
with_five old s rows t = or_else (point_at t old.five_minute) (brought_five s rows t)

abbrev pub with_day : Rings → String → List Row → ℕ → Option Point
with_day old s rows t = or_else (point_at t old.daily) (brought_day s rows t)

-- Two days of points of one minute, 45 days of those of five, and 400 days of daily ones are kept.
abbrev pub kept : ℕ → ℕ → ℕ → Option Point → Option Point
kept retention latest t point = if ltb (t + retention) latest then none else point

pub record HoldsBatch (new old : Rings) (s : String) (rows : List Row) : Type 0 where
  pub latest : ℕ
  pub is_latest :
      IsLatest (with_minute old s rows) (with_five old s rows) (with_day old s rows) latest
  pub one_minute :
      (t : ℕ) → point_at t new.one_minute ≡ kept 172_800 latest t (with_minute old s rows t)
  pub five_minute :
      (t : ℕ) → point_at t new.five_minute ≡ kept 3_888_000 latest t (with_five old s rows t)
  pub daily : (t : ℕ) → point_at t new.daily ≡ kept 34_560_000 latest t (with_day old s rows t)
