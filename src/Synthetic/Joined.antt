-- ===== src/Synthetic/Joined.antt =====
-- providers/synthetic.py, `synthesize_history`: the points of a history of a product or a quotient.
use mathlib.Core.Path.{subst}
use quick_price.Prelude.{
  ℕ, ◌+◌, ◌≤◌, ◌≡◌, ◌≢◌, refl, sym, ◌∙◌, inl, inr, true, false, Option, none, some, String, List,
  [], ◌∷◌, ltb→le, arith, Bool-cases, Option-cases,
}
use quick_price.Prelude.Int.{ℤ, pos, negsuc}
use quick_price.History.{Point, latest_at_or_before}
use quick_price.Synthetic.Base.{
  Arithmetic, Operation, inverse, product, quotient, Recipe, positive, combined,
}
use quick_price.Synthetic.Series.{sort_points, point_with, is_apart, derive, synthesize_history}
use quick_price.Synthetic.Pairing.{with_partners, synthesize_history-with_partners}

some_inj : {A : Type 0} {a b : A} → some a ≡ some b → a ≡ b
some_inj h = cc h

module _ (ar : Arithmetic) (r : Recipe) (interval : String) where
  -- The price of a product or a quotient; none where the arithmetic raises an error.
  abbrev pub price_by : Operation → ℕ → ℕ → Option ℕ
  price_by inverse a b = none
  price_by product a b = ar.multiply a b
  price_by quotient a b = ar.divide a b

  -- A right point makes a point with the left one: it is at most the skew, which is not negative,
  -- older, and the price is valid and positive.
  pub record Makes (left right made : Point) : Type 0 where
    pub skew : ℕ
    pub is_skew : r.max_skew ≡ pos skew
    pub near : left.timestamp ≤ right.timestamp + skew
    pub price : price_by r.operation left.price right.price ≡ some made.price
    pub is_positive : ar.is_positive made.price ≡ true
    pub timestamp : made.timestamp ≡ left.timestamp
    pub provider : made.provider ≡ r.provider_name
    pub interval_of : made.interval ≡ interval
    pub is_derived : made.is_derived ≡ true

  -- The points, in the order of the left points, that the left points make with their partners.
  pub data Joined (partner : ℕ → Option Point) : List Point → List Point → Type 0 where
    done : Joined partner [] []
    makes :
        (left right made : Point) (lefts all : List Point)
        → partner left.timestamp ≡ some right
        → Makes left right made
        → Joined partner lefts all
        → Joined partner (left ∷ lefts) (made ∷ all)
    skips :
        (left : Point) (lefts all : List Point)
        → ((right made : Point) → partner left.timestamp ≡ some right → Makes left right made → ⊥)
        → Joined partner lefts all
        → Joined partner (left ∷ lefts) all

  is_apart-near :
      (skew : ℤ) (left right : ℕ)
      → is_apart skew left right ≡ false
      → (n : ℕ) × (skew ≡ pos n) × (left ≤ right + n)
  unfolding is_apart
  is_apart-near (negsuc n) left right h = absurd (cc h)
  is_apart-near (pos n) left right h = (n, refl, ltb→le (right + n) left h)

  near_lem :
      (skew : ℤ) (n left right : ℕ)
      → skew ≡ pos n
      → left ≤ right + n
      → is_apart skew left right ≡ false
  unfolding is_apart
  near_lem skew n left right e l = rw e (ground arith)

  combined-price_by : (o : Operation) (a b : ℕ) → o ≢ inverse → combined ar o a b ≡ price_by o a b
  unfolding combined
  combined-price_by inverse a b n = absurd (n refl)
  combined-price_by product a b n = refl
  combined-price_by quotient a b n = refl

  price_by-combined :
      (o : Operation) (a b v : ℕ) → price_by o a b ≡ some v → combined ar o a b ≡ some v
  unfolding combined
  price_by-combined inverse a b v e = absurd (cc e)
  price_by-combined product a b v e = e
  price_by-combined quotient a b v e = e

  -- The point of a price that is valid and positive, at the time of the left point.
  abbrev IsPoint : Point → Option ℕ → Point → Type 0
  IsPoint left price made =
      (price ≡ some made.price)
      × (ar.is_positive made.price ≡ true)
      × (made.timestamp ≡ left.timestamp)
      × (made.provider ≡ r.provider_name)
      × (made.interval ≡ interval)
      × (made.is_derived ≡ true)

  point_with-IsPoint :
      (left made : Point) (price : Option ℕ)
      → point_with r interval left (positive ar price) ≡ some made
      → IsPoint left price made
  unfolding point_with positive
  point_with-IsPoint left made none e = absurd (cc e)
  point_with-IsPoint left made (some v) e = elim (Bool-cases (ar.is_positive v)) [
    | inl f ↦ subst (IsPoint left (some v)) (some_inj (rw f at e)) (refl, f, refl, refl, refl, refl)
    | inr f ↦ absurd (cc (rw f at e))
  ]

  derive-Makes :
      (left right made : Point)
      → r.operation ≢ inverse
      → derive ar r interval left (some right) ≡ some made
      → Makes left right made
  unfolding derive
  derive-Makes left right made n e =
      elim (Bool-cases (is_apart r.max_skew left.timestamp right.timestamp)) [
        | inl f ↦ absurd (cc (rw f at e))
        | inr f ↦
            let (skew, is_skew, near) = is_apart-near r.max_skew left.timestamp right.timestamp f in
            let (price, positive, timestamp, provider, same, derived) =
              point_with-IsPoint left made (combined ar r.operation left.price right.price)
                (rw f at e) in
            record {
              skew = skew;
              is_skew = is_skew;
              near = near;
              price = sym (combined-price_by r.operation left.price right.price n) ∙ price;
              is_positive = positive;
              timestamp = timestamp;
              provider = provider;
              interval_of = same;
              is_derived = derived;
            }
      ]

  Makes-derive :
      (left right made : Point)
      → Makes left right made
      → derive ar r interval left (some right) ≡ some made
  unfolding derive point_with positive
  Makes-derive left right made m =
      rw
        (
          near_lem r.max_skew m.skew left.timestamp right.timestamp m.is_skew m.near,
          price_by-combined r.operation left.price right.price made.price m.price,
          m.is_positive,
          ← m.timestamp,
          ← m.provider,
          ← m.interval_of,
          ← m.is_derived,
        )
        refl

  with_partners-Joined :
      (partner : ℕ → Option Point) (lefts : List Point)
      → r.operation ≢ inverse
      → Joined partner lefts (with_partners ar r interval partner lefts)
  unfolding with_partners derive
  with_partners-Joined partner [] n = done
  with_partners-Joined partner (left ∷ lefts) n =
      let rest = with_partners-Joined partner lefts n in
      elim (Option-cases (partner left.timestamp)) [
        | inl e ↦ rw e (skips left lefts _ (λ right made p m. absurd (cc (e, p))) rest)
        | inr (right, e) ↦ elim (Option-cases (derive ar r interval left (some right))) [
          | inl f ↦
              rw (e, f)
                (skips left lefts _
                  (λ right' made p m.
                    let q : right' ≡ right = cc (e, p) in
                    absurd
                      (cc (f, Makes-derive left right made (subst (λ z. Makes left z made) q m))))
                  rest)
          | inr (made, f) ↦
              rw (e, f) (makes left right made lefts _ e (derive-Makes left right made n f) rest)
        ]
      ]

  -- The history of a product or a quotient, with no limit and from any two component histories, has
  -- for each left point, in order of time, the point that it makes with the last right point that is
  -- not later: where that is at most the skew older and the price is valid and positive, a point at
  -- the time of the left one with the product or quotient of their prices, else none.
  pub synthesize_history-Joined :
      (lefts rights : List Point)
      → r.operation ≢ inverse
      → Joined
          (latest_at_or_before (sort_points rights))
          (sort_points lefts)
          (synthesize_history ar r interval lefts rights none)
  synthesize_history-Joined lefts rights n =
      subst (Joined (latest_at_or_before (sort_points rights)) (sort_points lefts))
        (sym (synthesize_history-with_partners ar r interval lefts rights n))
        (with_partners-Joined (latest_at_or_before (sort_points rights)) (sort_points lefts) n)
