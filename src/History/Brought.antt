-- ===== src/History/Brought.antt =====
-- cache.py, `load`: what a batch brings, told from its rows alone.
use text.Mathlib.Text.{◌==◌ as str_eq}
use text.Mathlib.TextEquality.{eq_iff}
use mathlib.Core.Path.{subst}
use quick_price.Prelude.{
  ℕ, ◌*◌, ◌/◌, ◌≤◌, ◌<◌, leb→lt, leb→le, ◌≡◌, refl, sym, ap, ◌∙◌, inl, inr, Bool, true, false, ◌&&◌,
  ◌||◌, Option, none, some, String, List, [], ◌∷◌, ltb, leb, ◌==◌, if◌then◌else◌, All, Bool-cases,
  Option-cases, arith,
}
use quick_price.Prelude.Dict.{Dict, get, put, get-put_self, get-put_ne}
use quick_price.Prelude.Texts.{String-discrete}
use quick_price.History.{Point, Rings}
use quick_price.History.Ring.{point_at}
use quick_price.History.Adds.{IsOrdered}
use quick_price.History.Cache.{or_no_rings}
use quick_price.History.Load.{Row, with_incoming, insert_row, sort_rows, gather}
use quick_price.History.Loaded.{or_else, SoundResult, with_incoming-IsSound}
use quick_price.History.Loads.{Dated, SoundDict, put-SoundDict, get-IsSound, sort_rows-Dated}

-- The places of a point in the three rings: a point of one minute is at the start of its minute, and
-- with one of five minutes at the start of its five minutes; a daily point is at its own time.
abbrev pub in_minute : ℕ → Point → Bool
in_minute t p = str_eq p.interval "1m" && p.timestamp / 60 * 60 == t

abbrev pub in_five : ℕ → Point → Bool
in_five t p = (str_eq p.interval "1m" || str_eq p.interval "5m") && p.timestamp / 300 * 300 == t

abbrev pub in_day : ℕ → Point → Bool
in_day t p = str_eq p.interval "1d" && p.timestamp == t

-- Of two rows the later in time counts, and of rows of one time the one that stands later.
abbrev pub newer : Point → Option Point → Option Point
newer p none = some p
newer p (some q) = if ltb q.timestamp p.timestamp then some p else some q

-- the row of the symbol that counts, among those with a place
abbrev pub newest : (Point → Bool) → String → List Row → Option Point
newest place s [] = none
newest place s ((k, p) ∷ rows) =
    if str_eq k s && place p then newer p (newest place s rows) else newest place s rows

-- The order of two rows of different times makes no difference.
swap :
    (b d : Bool) (p q : Point) (rest : Option Point)
    → q.timestamp < p.timestamp
    → (if b then newer q (if d then newer p rest else rest) else if d then newer p rest else rest)
      ≡ (if d then newer p (if b then newer q rest else rest) else if b then newer q rest else rest)
swap true true p q none l = ground arith
swap true true p q (some r) l = ground arith
swap true false p q rest l = refl
swap false true p q rest l = refl
swap false false p q rest l = refl

module _ (place : Point → Bool) (s : String) where
  -- Sorting the rows by their times makes no difference.
  newest-insert_row :
      (k : String) (p : Point) (rows : List Row)
      → newest place s (insert_row (k, p) rows) ≡ newest place s ((k, p) ∷ rows)
  unfolding insert_row
  newest-insert_row k p [] = refl
  newest-insert_row k p ((j, q) ∷ rows) = elim (Bool-cases (leb p.timestamp q.timestamp)) [
    | inl e ↦ rw e refl
    | inr e ↦
        rw (e, newest-insert_row k p rows)
          (swap (str_eq j s && place q) (str_eq k s && place p) p q (newest place s rows)
            (leb→lt p.timestamp q.timestamp e))
  ]

  newest-sort_rows : (rows : List Row) → newest place s (sort_rows rows) ≡ newest place s rows
  unfolding sort_rows
  newest-sort_rows [] = refl
  newest-sort_rows ((k, p) ∷ rows) =
      newest-insert_row k p (sort_rows rows)
      ∙ ap (λ o. if str_eq k s && place p then newer p o else o) (newest-sort_rows rows)

-- Each row is at least as late as the one before.
abbrev InTime : List Row → Type 0
InTime [] = Unit
InTime ((k, p) ∷ rows) = All (λ row. p.timestamp ≤ row.1.timestamp) rows × InTime rows

le-All :
    (a b : ℕ) (rows : List Row)
    → a ≤ b
    → All (λ row. b ≤ row.1.timestamp) rows
    → All (λ row. a ≤ row.1.timestamp) rows
le-All a b [] l h = tt
le-All a b (row ∷ rows) l h = (omega arith, le-All a b rows l h.1)

insert_row-le :
    (a : ℕ) (k : String) (p : Point) (rows : List Row)
    → a ≤ p.timestamp
    → All (λ row. a ≤ row.1.timestamp) rows
    → All (λ row. a ≤ row.1.timestamp) (insert_row (k, p) rows)
unfolding insert_row
insert_row-le a k p [] l h = (l, tt)
insert_row-le a k p ((j, q) ∷ rows) l h = elim (Bool-cases (leb p.timestamp q.timestamp)) [
  | inl e ↦ rw e (l, h)
  | inr e ↦ rw e (h.0, insert_row-le a k p rows l h.1)
]

insert_row-InTime :
    (k : String) (p : Point) (rows : List Row) → InTime rows → InTime (insert_row (k, p) rows)
unfolding insert_row
insert_row-InTime k p [] h = (tt, tt)
insert_row-InTime k p ((j, q) ∷ rows) h = elim (Bool-cases (leb p.timestamp q.timestamp)) [
  | inl e ↦
      let l = leb→le p.timestamp q.timestamp e in
      rw e ((l, le-All p.timestamp q.timestamp rows l h.0), h)
  | inr e ↦
      let l = leb→lt p.timestamp q.timestamp e in
      rw e (insert_row-le q.timestamp k p rows (omega arith) h.0, insert_row-InTime k p rows h.1)
]

sort_rows-InTime : (rows : List Row) → InTime (sort_rows rows)
unfolding sort_rows
sort_rows-InTime [] = tt
sort_rows-InTime ((k, p) ∷ rows) = insert_row-InTime k p (sort_rows rows) (sort_rows-InTime rows)

-- Behind a row only later rows count before it.
IsLater : ℕ → Option Point → Type 0
IsLater a none = Unit
IsLater a (some q) = a ≤ q.timestamp

newest-IsLater :
    (place : Point → Bool) (s : String) (a : ℕ) (rows : List Row)
    → All (λ row. a ≤ row.1.timestamp) rows
    → IsLater a (newest place s rows)
unfolding IsLater
newest-IsLater place s a [] h = tt
newest-IsLater place s a ((k, p) ∷ rows) h = elim (Bool-cases (str_eq k s && place p)) [
  | inr e ↦ rw e (newest-IsLater place s a rows h.1)
  | inl e ↦ rw e (either (newest place s rows) (newest-IsLater place s a rows h.1))
]
  where
    either : (o : Option Point) → IsLater a o → IsLater a (newer p o)
    either none k = h.0
    either (some q) k = elim (Bool-cases (ltb q.timestamp p.timestamp)) [
      | inl e ↦ rw e h.0
      | inr e ↦ rw e k
    ]

newer-or_else :
    (p : Point) (o : Option Point) → IsLater p.timestamp o → newer p o ≡ or_else o (some p)
unfolding IsLater
newer-or_else p none l = refl
newer-or_else p (some q) l = ground arith

abbrev pub moved_by : (Point → Point) → Option Point → Option Point
moved_by f none = none
moved_by f (some p) = some (f p)

-- One of the rings, with the places of its points and what becomes of them.
module _ (ring : Rings → List Point) (place : Point → Bool) (move : Point → Point) (t : ℕ)
    (none_held : point_at t (ring (or_no_rings none)) ≡ none)
    (step : (r r' : Rings) (p : Point)
      → IsOrdered r
      → with_incoming r p ≡ some r'
      → point_at t (ring r') ≡ (if place p then some (move p) else point_at t (ring r))) where
  abbrev held_in : Dict String Rings → String → Option Point
  held_in d s = point_at t (ring (or_no_rings (get String-discrete s d)))

  one_row :
      (b : Bool) (p : Point) (o old : Option Point)
      → IsLater p.timestamp o
      → or_else (moved_by move o) (if b then some (move p) else old)
        ≡ or_else (moved_by move (if b then newer p o else o)) old
  one_row true p none old l = refl
  one_row true p (some q) old l = rw (newer-or_else p (some q) l) refl
  one_row false p o old l = refl

  held_in-put :
      (d : Dict String Rings) (k s : String) (p : Point) (r' : Rings)
      → SoundDict d
      → with_incoming (or_no_rings (get String-discrete k d)) p ≡ some r'
      → held_in (put String-discrete k r' d) s
        ≡ (if str_eq k s && place p then some (move p) else held_in d s)
  held_in-put d k s p r' sound e = elim (String-discrete k s) [
    | yes same ↦
        let here = step (or_no_rings (get String-discrete k d)) r' p (get-IsSound d k sound).0 e in
        let is_s : str_eq k s ≡ true = (eq_iff k s).1 same in
        subst
          (λ z.
            held_in (put String-discrete k r' d) z
            ≡ (if str_eq k z && place p then some (move p) else held_in d z))
          same (rw (get-put_self String-discrete k r' d, (eq_iff k k).1 refl) here)
    | no apart ↦
        let not_s : str_eq k s ≡ false = elim (Bool-cases (str_eq k s)) [
          | inl f ↦ absurd (apart ((eq_iff k s).0 f))
          | inr f ↦ f
        ] in
        rw (get-put_ne String-discrete k s r' d apart, not_s) refl
  ]

  gather-held_in :
      (d d' : Dict String Rings) (rows : List Row) (s : String)
      → SoundDict d
      → Dated rows
      → InTime rows
      → gather d rows ≡ some d'
      → held_in d' s ≡ or_else (moved_by move (newest place s rows)) (held_in d s)
  unfolding gather
  gather-held_in d d' [] s sound dated times e =
      let same : d ≡ d' = cc e in ap (λ z. held_in z s) (sym same)
  gather-held_in d d' ((k, p) ∷ rows) s sound dated (after, times) e =
      let r = or_no_rings (get String-discrete k d) in
      elim (Option-cases (with_incoming r p)) [
        | inl f ↦ absurd (cc (rw (f, gather) at e))
        | inr (r', f) ↦
            let sound' =
              put-SoundDict d k r' sound
                (subst SoundResult f (with_incoming-IsSound r p (get-IsSound d k sound) dated.0)) in
            gather-held_in (put String-discrete k r' d) d' rows s sound' dated.1 times
              (rw (f, gather) at e)
            ∙ ap (λ o. or_else (moved_by move (newest place s rows)) o)
                (held_in-put d k s p r' sound f)
            ∙ one_row (str_eq k s && place p) p (newest place s rows) (held_in d s)
                (newest-IsLater place s p.timestamp rows after)
      ]

  -- What the gathered rows hold at a time, for the rows in any order.
  pub gathered :
      (d : Dict String Rings) (rows : List Row) (s : String)
      → Dated rows
      → gather [] (sort_rows rows) ≡ some d
      → held_in d s ≡ moved_by move (newest place s rows)
  gathered d rows s dated e =
      gather-held_in [] d (sort_rows rows) s tt (sort_rows-Dated rows dated) (sort_rows-InTime rows)
        e
      ∙ ap (λ o. or_else (moved_by move o) (held_in [] s)) (newest-sort_rows place s rows)
      ∙ ends (newest place s rows)
    where
      ends : (o : Option Point) → or_else (moved_by move o) (held_in [] s) ≡ moved_by move o
      ends none = unfold get in none_held
      ends (some q) = refl
