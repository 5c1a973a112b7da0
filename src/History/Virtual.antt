-- ===== src/History/Virtual.antt =====
-- cache.py: the reference of a symbol whose history is not kept, as a recipe derives it from the
-- rings of its components (`_synthetic_reference_at_locked`). The recipe and the arithmetic are
-- those of the Synthetic model; `register_synthetic_history` refuses a negative skew.
use quick_price.Prelude.{ℕ, Option, none, some, String, List, [], ◌∷◌, ◌++◌, ltb, if◌then◌else◌}
use quick_price.History.{Point, Rings}
use quick_price.Synthetic.Base.{Arithmetic, Operation, inverse, product, quotient, Recipe}
use quick_price.Synthetic.Series.{derive, invert}

abbrev pub reversed : List Point → List Point
reversed [] = []
reversed (p ∷ ps) = reversed ps ++ p ∷ []

-- `while right is not None and right.timestamp > left.timestamp: right = next(...)`
unfoldable pub drop_later : ℕ → List Point → List Point
drop_later t [] = []
drop_later t (q ∷ qs) = let rest = drop_later t qs in if ltb t q.timestamp then rest else q ∷ qs

-- The loops go over reversed rings, the latest point first.
module _ (ar : Arithmetic) (r : Recipe) (interval : String) (cutoff : ℕ) where
  unfoldable pub inverse_walk : List Point → Option Point
  inverse_walk [] = none
  inverse_walk (l ∷ ls) =
      let rest = inverse_walk ls in
      if ltb cutoff l.timestamp
      then rest
      else elim (invert ar r interval l) [ some p ↦ some p | none ↦ rest ]

  unfoldable pub walk : List Point → List Point → Option Point
  unfolding drop_later
  walk rights [] = none
  walk rights (l ∷ ls) =
      let skipped = walk rights ls in
      let here : Option Point = elim (drop_later l.timestamp rights) [
        | [] ↦ none
        | q ∷ qs ↦ elim (derive ar r interval l (some q)) [
          | some p ↦ some p
          | none ↦ walk (q ∷ qs) ls
        ]
      ] in
      if ltb cutoff l.timestamp then skipped else here

  -- one round of the loop over the intervals
  unfoldable pub interval_reference : Operation → List Point → List Point → Option Point
  unfolding inverse_walk walk
  interval_reference inverse lefts rights = inverse_walk (reversed lefts)
  interval_reference product lefts rights = walk (reversed rights) (reversed lefts)
  interval_reference quotient lefts rights = walk (reversed rights) (reversed lefts)

-- the rings of the two components; those of the second are not read for an inverse
unfoldable pub synthetic_reference_at : Arithmetic → Recipe → Rings → Rings → ℕ → Option Point
unfolding interval_reference
synthetic_reference_at ar r left right cutoff =
    elim (interval_reference ar r "1m" cutoff r.operation left.one_minute right.one_minute) [
      | some p ↦ some p
      | none ↦
          elim (interval_reference ar r "5m" cutoff r.operation left.five_minute
            right.five_minute) [
              | some p ↦ some p
              | none ↦ interval_reference ar r "1d" cutoff r.operation left.daily right.daily
            ]
    ]
