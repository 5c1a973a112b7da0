-- ===== src/Synthetic/Series.antt =====
-- providers/synthetic.py: a history from one or two component histories (`synthesize_history`,
-- `SyntheticHistoryProvider`). The points of one history have one symbol, which is left out.
use quick_price.Prelude.{
  ℕ, zero, suc, ◌+◌, ◌-◌, Bool, true, false, Option, none, some, String, List, [], ◌∷◌, ltb, leb,
  if◌then◌else◌, length, drop,
}
use quick_price.Prelude.Int.{ℤ, pos, negsuc}
use quick_price.History.{Point}
use quick_price.Synthetic.Base.{
  Arithmetic, Operation, inverse, product, quotient, Recipe, unsupported, no_overlap, Result, ok,
  err, positive, combined,
}

-- `sorted(points, key=lambda item: item.timestamp)`, which keeps the order of equal times
unfoldable pub insert_point : Point → List Point → List Point
insert_point p [] = p ∷ []
insert_point p (q ∷ qs) =
    let rest = insert_point p qs in if leb p.timestamp q.timestamp then p ∷ q ∷ qs else q ∷ rest

unfoldable pub sort_points : List Point → List Point
unfolding insert_point
sort_points [] = []
sort_points (p ∷ ps) = insert_point p (sort_points ps)

-- the point that a result price makes, at the time of its left point
unfoldable pub point_with : Recipe → String → Point → Result ℕ → Option Point
point_with r interval left (err e) = none
point_with r interval left (ok price) = some (record {
  timestamp = left.timestamp;
  price = price;
  provider = r.provider_name;
  is_derived = true;
  interval = interval;
})

-- `left.timestamp - right.timestamp > recipe.max_skew`, for a right point that is not later
unfoldable pub is_apart : ℤ → ℕ → ℕ → Bool
is_apart (negsuc n) left right = true
is_apart (pos skew) left right = ltb (right + skew) left

unfoldable pub derive : Arithmetic → Recipe → String → Point → Option Point → Option Point
unfolding point_with is_apart
derive ar r interval left none = none
derive ar r interval left (some right) =
    if is_apart r.max_skew left.timestamp right.timestamp
    then none
    else point_with r interval left (positive ar (combined ar r.operation left.price right.price))

unfoldable pub invert : Arithmetic → Recipe → String → Point → Option Point
unfolding point_with
invert ar r interval left = point_with r interval left (positive ar (ar.reciprocal left.price))

abbrev pub prepend : Option Point → List Point → List Point
prepend none ps = ps
prepend (some p) ps = p ∷ ps

-- the inner loop: the right points up to a time go by, and the last of them is kept
unfoldable pub advance : ℕ → Option Point → List Point → Option Point × List Point
advance t last [] = (last, [])
advance t last (r ∷ rs) =
    let rest = advance t (some r) rs in if leb r.timestamp t then rest else (last, r ∷ rs)

module _ (ar : Arithmetic) (r : Recipe) (interval : String) where
  unfoldable pub inverted : List Point → List Point
  inverted [] = []
  inverted (p ∷ ps) = prepend (invert ar r interval p) (inverted ps)

  -- the outer loop
  unfoldable pub paired : Option Point → List Point → List Point → List Point
  paired last rights [] = []
  paired last rights (left ∷ lefts) =
      let (last', rights') = advance left.timestamp last rights in
      prepend (derive ar r interval left last') (paired last' rights' lefts)

  unfoldable pub unlimited : Operation → List Point → List Point → List Point
  unfolding inverted paired sort_points
  unlimited inverse lefts rights = inverted (sort_points lefts)
  unlimited product lefts rights = paired none (sort_points rights) (sort_points lefts)
  unlimited quotient lefts rights = paired none (sort_points rights) (sort_points lefts)

-- `result[-max(0, limit):]`: a Python slice from `-0` on is the whole list
unfoldable pub last_of : Option ℤ → List Point → List Point
last_of none ps = ps
last_of (some (negsuc n)) ps = ps
last_of (some (pos zero)) ps = ps
last_of (some (pos (suc n))) ps = drop (length ps - suc n) ps

unfoldable pub synthesize_history :
    Arithmetic → Recipe → String → List Point → List Point → Option ℤ → List Point
unfolding unlimited last_of
synthesize_history ar r interval lefts rights limit =
    last_of limit (unlimited ar r interval r.operation lefts rights)

-- `SyntheticHistoryProvider.get_history`. The resolver is asked for a symbol from a start on with a
-- limit, and its error passes through; the interval and the end are those of the call.
abbrev pub Resolver : Type 0
Resolver = String → ℕ → Option ℤ → Result (List Point)

-- `start - recipe.max_skew`, for a start that is later than the skew
unfoldable pub earlier : ℕ → ℤ → ℕ
earlier start (pos skew) = start - skew
earlier start (negsuc n) = start + suc n

-- `limit + 1`
unfoldable pub one_more : Option ℤ → Option ℤ
one_more none = none
one_more (some (pos n)) = some (pos (suc n))
one_more (some (negsuc zero)) = some (pos zero)
one_more (some (negsuc (suc n))) = some (negsuc n)

-- the error of a result that is empty though its components are not
unfoldable pub checked_overlap : List Point → Bool → List Point → Result (List Point)
checked_overlap [] needed result = ok result
checked_overlap (l ∷ ls) true [] = err no_overlap
checked_overlap (l ∷ ls) needed (p ∷ ps) = ok (p ∷ ps)
checked_overlap (l ∷ ls) false [] = ok []

is_filled : List Point → Bool
is_filled [] = false
is_filled (p ∷ ps) = true

module _ (ar : Arithmetic) (r : Recipe) (interval : String) (limit : Option ℤ) where
  inverse_history : Result (List Point) → Result (List Point)
  unfolding checked_overlap synthesize_history
  inverse_history (err e) = err e
  inverse_history (ok lefts) =
      checked_overlap lefts true (synthesize_history ar r interval lefts [] limit)

  -- of two failures that of the right component if `right_first` says that it is the first in time
  paired_history : Bool → Result (List Point) → Result (List Point) → Result (List Point)
  unfolding checked_overlap synthesize_history is_filled
  paired_history right_first (err e) (err f) = if right_first then err f else err e
  paired_history right_first (err e) (ok rights) = err e
  paired_history right_first (ok lefts) (err f) = err f
  paired_history right_first (ok lefts) (ok rights) =
      checked_overlap lefts (is_filled rights) (synthesize_history ar r interval lefts rights limit)

  recipe_history : Operation → Bool → Resolver → ℕ → Result (List Point)
  unfolding inverse_history paired_history one_more earlier
  recipe_history inverse right_first resolver start =
      inverse_history (resolver r.left_symbol start limit)
  recipe_history product right_first resolver start =
      paired_history right_first (resolver r.left_symbol start limit)
        (resolver r.right_symbol (earlier start r.max_skew) (one_more limit))
  recipe_history quotient right_first resolver start =
      paired_history right_first (resolver r.left_symbol start limit)
        (resolver r.right_symbol (earlier start r.max_skew) (one_more limit))

-- for the recipe of the symbol, where there is one
unfoldable pub get_history :
    Arithmetic → Option Recipe → String → Option ℤ → Bool → Resolver → ℕ → Result (List Point)
unfolding recipe_history
get_history ar none interval limit right_first resolver start = err unsupported
get_history ar (some r) interval limit right_first resolver start =
    recipe_history ar r interval limit r.operation right_first resolver start
