-- ===== src/History/Batches.antt =====
-- cache.py, `load`: what a batch of rows leaves, told from the rows.
use text.Mathlib.Text.{◌==◌ as str_eq}
use text.Mathlib.TextEquality.{eq_iff}
use mathlib.Core.Path.{subst}
use quick_price.Prelude.{
  ℕ, ◌≡◌, refl, sym, ap, ◌∙◌, inl, inr, Bool, true, false, ◌||◌, Option, none, some, String, List,
  [], ◌∷◌, leb, Bool-cases, Option-cases, arith, map,
}
use quick_price.Prelude.Dict.{Dict, get, put, get-put_self, get-put_ne}
use quick_price.Prelude.Texts.{String-discrete}
use quick_price.Registry.Search.{mem}
use quick_price.History.{Point, Rings}
use quick_price.History.Ring.{point_at}
use quick_price.History.Adds.{IsOrdered}
use quick_price.History.Cache.{Cache, or_no_rings, rings_of}
use quick_price.History.Coherent.{AllOrdered}
use quick_price.History.Load.{
  Row, with_incoming, insert_row, sort_rows, gather, load, updated, latest_of,
}
use quick_price.History.Loaded.{or_else, HoldsLoaded, point_at-update}
use quick_price.History.Loads.{Dated, gathered-IsOrdered, load-HoldsLoaded}
use quick_price.History.Batch.{
  brought_minute, brought_five, brought_day, kept, gathered-brought, with_minute, with_five,
  with_day, IsLatest, latest_of-IsLatest, HoldsBatch,
}

-- the symbols of the rows
abbrev pub symbols : List Row → List String
symbols rows = map (λ row. row.0) rows

insert_row-symbols :
    (s k : String) (p : Point) (rows : List Row)
    → mem s (symbols (insert_row (k, p) rows)) ≡ (str_eq s k || mem s (symbols rows))
unfolding insert_row mem
insert_row-symbols s k p [] = refl
insert_row-symbols s k p ((j, q) ∷ rows) = elim (Bool-cases (leb p.timestamp q.timestamp)) [
  | inl e ↦ rw e refl
  | inr e ↦
      let rest = insert_row-symbols s k p rows in
      rw (e, rest) (comm (str_eq s j) (str_eq s k) (mem s (symbols rows)))
]
  where
    comm : (a b c : Bool) → (a || (b || c)) ≡ (b || (a || c))
    comm a b c = ground arith

sort_rows-symbols :
    (s : String) (rows : List Row) → mem s (symbols (sort_rows rows)) ≡ mem s (symbols rows)
unfolding sort_rows mem
sort_rows-symbols s [] = refl
sort_rows-symbols s ((k, p) ∷ rows) =
    insert_row-symbols s k p (sort_rows rows) ∙ ap (λ b. str_eq s k || b) (sort_rows-symbols s rows)

abbrev is_there : Option Rings → Bool
is_there none = false
is_there (some r) = true

-- The gathered rings are those of the symbols of the rows, besides the ones from before.
gather-is_there :
    (d d' : Dict String Rings) (rows : List Row) (s : String)
    → gather d rows ≡ some d'
    → is_there (get String-discrete s d')
      ≡ (mem s (symbols rows) || is_there (get String-discrete s d))
unfolding gather mem
gather-is_there d d' [] s e =
    let same : d ≡ d' = cc e in ap (λ z. is_there (get String-discrete s z)) (sym same)
gather-is_there d d' ((k, p) ∷ rows) s e =
    elim (Option-cases (with_incoming (or_no_rings (get String-discrete k d)) p)) [
      | inl f ↦ absurd (cc (rw (f, gather) at e))
      | inr (r, f) ↦
          gather-is_there (put String-discrete k r d) d' rows s (rw (f, gather) at e)
          ∙ ap (λ b. mem s (symbols rows) || b) (put-is_there d k s r)
          ∙ comm (mem s (symbols rows)) (str_eq s k) (is_there (get String-discrete s d))
    ]
  where
    comm : (a b c : Bool) → (a || (b || c)) ≡ ((b || a) || c)
    comm a b c = ground arith

    put-is_there :
        (d : Dict String Rings) (k s : String) (r : Rings)
        → is_there (get String-discrete s (put String-discrete k r d))
          ≡ (str_eq s k || is_there (get String-discrete s d))
    put-is_there d k s r = elim (Bool-cases (str_eq s k)) [
      | inl f ↦
          let same : k ≡ s = sym ((eq_iff s k).0 f) in
          rw f (
            subst (λ z. is_there (get String-discrete z (put String-discrete k r d)) ≡ true) same
              (rw (get-put_self String-discrete k r d) refl))
      | inr f ↦
          rw
            (
              f,
              get-put_ne String-discrete k s r d
                  (λ same. absurd (cc (f, (eq_iff s k).1 (sym same)))),
            )
            refl
    ]

-- From what the gathered rings hold to what the rows bring.
module _ (rows : List Row) (s : String) (i old : Rings) where
  abbrev Brings : Type 0
  Brings =
      (t : ℕ)
      → (point_at t i.one_minute ≡ brought_minute s rows t)
        × (point_at t i.five_minute ≡ brought_five s rows t)
        × (point_at t i.daily ≡ brought_day s rows t)

  abbrev Together : ℕ → Type 0
  Together t =
      (point_at t (updated i old).one_minute ≡ with_minute old s rows t)
      × (point_at t (updated i old).five_minute ≡ with_five old s rows t)
      × (point_at t (updated i old).daily ≡ with_day old s rows t)

  updated-Together : IsOrdered i → IsOrdered old → Brings → (t : ℕ) → Together t
  unfolding updated
  updated-Together (a, b, c) (x, y, z) brings t = (
    point_at-update t i.one_minute old.one_minute a x
        ∙ ap (λ o. or_else (point_at t old.one_minute) o) (brings t).0,
    point_at-update t i.five_minute old.five_minute b y
        ∙ ap (λ o. or_else (point_at t old.five_minute) o) (brings t).1,
    point_at-update t i.daily old.daily c z
        ∙ ap (λ o. or_else (point_at t old.daily) o) (brings t).2,
  )

  Together-IsLatest :
      ((t : ℕ) → Together t)
      → IsLatest
          (with_minute old s rows)
          (with_five old s rows)
          (with_day old s rows)
          (latest_of (updated i old))
  Together-IsLatest same =
      let last = latest_of (updated i old) in
      let (after, at_last) = latest_of-IsLatest (updated i old) in
      (
        λ t l. (
          sym (same t).0 ∙ (after t l).0,
          sym (same t).1 ∙ (after t l).1,
          sym (same t).2 ∙ (after t l).2,
        ),
        elim at_last [
          | inl z ↦ inl z
          | inr (q, inl h) ↦ inr (q, inl (sym (same last).0 ∙ h))
          | inr (q, inr (inl h)) ↦ inr (q, inr (inl (sym (same last).1 ∙ h)))
          | inr (q, inr (inr h)) ↦ inr (q, inr (inr (sym (same last).2 ∙ h)))
        ],
      )

  HoldsLoaded-HoldsBatch :
      (new : Rings)
      → IsOrdered i
      → IsOrdered old
      → Brings
      → HoldsLoaded new i old
      → HoldsBatch new old s rows
  HoldsLoaded-HoldsBatch new a b brings holds = record {
    latest = latest_of (updated i old);
    is_latest = Together-IsLatest (updated-Together a b brings);
    one_minute = λ t.
        (holds t).0
        ∙ ap
            (λ o.
              kept 172_800 (latest_of (updated i old)) t (or_else (point_at t old.one_minute) o))
            (brings t).0;
    five_minute = λ t.
        (holds t).1
        ∙ ap
            (λ o.
              kept 3_888_000 (latest_of (updated i old)) t (or_else (point_at t old.five_minute) o))
            (brings t).1;
    daily = λ t.
        (holds t).2
        ∙ ap (λ o. kept 34_560_000 (latest_of (updated i old)) t (or_else (point_at t old.daily) o))
            (brings t).2;
  }

-- In a cache with rings in order, a batch with daily points at full minutes only, once it is
-- accepted, leaves the rings of a symbol that has no row in it. Every ring of a symbol that has one
-- then holds at every time: nothing if the time is older than the retention at the latest point of
-- the symbol, else the point that was there, else the latest row of the batch with its place there,
-- the last of these where several are of one time. A row of one minute has its places at the start of
-- its minute and of its five minutes, one of five minutes at the start of its five, a daily one at its
-- own time.
pub load-HoldsBatch :
    (c c' : Cache) (rows : List Row) (s : String)
    → AllOrdered c
    → Dated rows
    → load c rows ≡ some c'
    → (mem s (symbols rows) ≡ false → rings_of c' s ≡ rings_of c s)
      × (mem s (symbols rows) ≡ true → HoldsBatch (rings_of c' s) (rings_of c s) s rows)
unfolding get
load-HoldsBatch c c' rows s ordered dated e =
    let (d, f, either) = load-HoldsLoaded c c' rows s ordered dated e in
    let there : is_there (get String-discrete s d) ≡ mem s (symbols rows) =
      gather-is_there [] d (sort_rows rows) s f
      ∙ ap (λ b. b || false) (sort_rows-symbols s rows)
      ∙ or_false (mem s (symbols rows)) in
    elim either [
      | inl (g, same) ↦
          (λ m. same, λ m. absurd (let no : false ≡ mem s (symbols rows) = rw g at there in cc))
      | inr (i, g, holds) ↦ (
        λ m. absurd (let yes_there : true ≡ mem s (symbols rows) = rw g at there in cc),
        λ m.
            HoldsLoaded-HoldsBatch rows s i (rings_of c s) (rings_of c' s) (incoming d i f g)
              (ordered s)
              (λ t. subst (λ o. BringsAt (or_no_rings o) t) g (gathered-brought d rows s t dated f))
              holds,
      )
    ]
  where
    or_false : (b : Bool) → (b || false) ≡ b
    or_false b = ground arith

    BringsAt : Rings → ℕ → Type 0
    BringsAt r t =
        (point_at t r.one_minute ≡ brought_minute s rows t)
        × (point_at t r.five_minute ≡ brought_five s rows t)
        × (point_at t r.daily ≡ brought_day s rows t)

    incoming :
        (d : Dict String Rings) (i : Rings)
        → gather [] (sort_rows rows) ≡ some d
        → get String-discrete s d ≡ some i
        → IsOrdered i
    incoming d i f g =
        subst (λ o. IsOrdered (or_no_rings o)) g (gathered-IsOrdered d rows s dated f)
