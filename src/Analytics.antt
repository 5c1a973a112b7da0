-- ===== src/Analytics.antt =====
-- analytics.py: the changes of a price over rolling windows (`calculate_changes`,
-- `calculate_changes_from_references`). `percent` is `(current / reference - 1) * 100` in Python's
-- `Decimal`, where none is an arithmetic error.
pub mod Changes
mod Scenarios
use quick_price.Prelude.{ℕ, ◌-◌, Option, none, some, List, [], ◌∷◌, leb, if◌then◌else◌}
use quick_price.History.{Point, latest_at_or_before}
use quick_price.History.Cache.{windows}
use quick_price.Synthetic.Series.{sort_points}

pub record ChangeValue : Type 0 where
  pub percent : ℕ
  pub reference_price : ℕ
  pub reference_as_of : ℕ

-- `point.timestamp <= current_as_of`
unfoldable pub up_to : ℕ → List Point → List Point
up_to as_of [] = []
up_to as_of (p ∷ ps) = let rest = up_to as_of ps in if leb p.timestamp as_of then p ∷ rest else rest

module _ (percent : ℕ → ℕ → Option ℕ) where
  -- the entry of a window; the outer none is the error of the division
  unfoldable pub change : ℕ → Option Point → Option (Option ChangeValue)
  change current none = some none
  change current (some p) = elim (percent current p.price) [
    | none ↦ none
    | some x ↦
        some
          (some (record { percent = x; reference_price = p.price; reference_as_of = p.timestamp }))
  ]

  -- the loops over the windows: the first error ends them
  unfoldable pub collect_changes :
      ℕ → (ℕ → Option Point) → List ℕ → Option (List (Option ChangeValue))
  unfolding change
  collect_changes current reference [] = some []
  collect_changes current reference (d ∷ ds) =
      let rest = collect_changes current reference ds in
      elim (change current (reference d)) [
        | none ↦ none
        | some x ↦ elim rest [ none ↦ none | some xs ↦ some (x ∷ xs) ]
      ]

  unfoldable pub calculate_changes : ℕ → ℕ → List Point → Option (List (Option ChangeValue))
  unfolding collect_changes up_to sort_points
  calculate_changes current as_of points =
      let ordered = sort_points (up_to as_of points) in
      collect_changes current (λ duration. latest_at_or_before ordered (as_of - duration)) windows

  -- `references.get(name)` of each window; the references stand in the order of the windows
  unfoldable pub collect_references :
      ℕ → List (Option Point) → List ℕ → Option (List (Option ChangeValue))
  unfolding change
  collect_references current refs [] = some []
  collect_references current [] (d ∷ ds) = elim (collect_references current [] ds) [
    | none ↦ none
    | some xs ↦ some (none ∷ xs)
  ]
  collect_references current (r ∷ refs) (d ∷ ds) =
      let rest = collect_references current refs ds in
      elim (change current r) [
        | none ↦ none
        | some x ↦ elim rest [ none ↦ none | some xs ↦ some (x ∷ xs) ]
      ]

  unfoldable pub calculate_changes_from_references :
      ℕ → List (Option Point) → Option (List (Option ChangeValue))
  unfolding collect_references
  calculate_changes_from_references current refs = collect_references current refs windows
