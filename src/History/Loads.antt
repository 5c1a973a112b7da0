-- ===== src/History/Loads.antt =====
-- cache.py, `load`: the batch as a whole, symbol by symbol.
use mathlib.Core.Path.{subst}
use quick_price.Prelude.{
  ◌≡◌, ◌⊎◌, refl, sym, ap, ◌∙◌, inl, inr, Option, none, some, String, List, [], ◌∷◌, leb, if_pos,
  if_neg, All, Bool-cases, Option-cases, arith,
}
use quick_price.Prelude.Dict.{Dict, get, put, Unique, put-Unique}
use quick_price.Prelude.Texts.{String-discrete}
use quick_price.History.{Rings}
use quick_price.History.Adds.{IsOrdered}
use quick_price.History.Cache.{Cache, or_no_rings, rings_of, set_rings, invalidate}
use quick_price.History.Sweep.{entry_of, Sub-refl}
use quick_price.History.Frames.{IsDated}
use quick_price.History.Coherent.{AllOrdered, IsCoherent}
use quick_price.History.Changes.{
  Frame, set_rings-Frame, invalidate-Frame, Frame-trans, told, one_symbol-IsCoherent,
}
use quick_price.History.Current.{rings_of-set_rings_self, Sub-entry}
use quick_price.History.Load.{
  Row, insert_row, sort_rows, with_incoming, gather, updated, retained, load_symbol, load_symbols,
  load_gathered, load,
}
use quick_price.History.Loaded.{
  IsSound, SoundResult, with_incoming-IsSound, retained-IsSound, HoldsLoaded, retained-HoldsLoaded,
}
use quick_price.Synthetic.Base.{Arithmetic}

-- The daily points of a batch stand at full minutes.
abbrev pub Dated : List Row → Type 0
Dated rows = All (λ row. IsDated row.1) rows

insert_row-Dated :
    (row : Row) (rows : List Row) → IsDated row.1 → Dated rows → Dated (insert_row row rows)
unfolding insert_row
insert_row-Dated (s, p) [] d h = (d, tt)
insert_row-Dated (s, p) ((t, q) ∷ rows) d h = elim (Bool-cases (leb p.timestamp q.timestamp)) [
  | inl e ↦ rw e (d, h)
  | inr e ↦ rw e (h.0, insert_row-Dated (s, p) rows d h.1)
]

pub sort_rows-Dated : (rows : List Row) → Dated rows → Dated (sort_rows rows)
unfolding sort_rows
sort_rows-Dated [] h = tt
sort_rows-Dated (row ∷ rows) h =
    insert_row-Dated row (sort_rows rows) h.0 (sort_rows-Dated rows h.1)

abbrev pub SoundDict : Dict String Rings → Type 0
SoundDict d = All (λ entry. IsSound entry.1) d

pub put-SoundDict :
    (d : Dict String Rings) (s : String) (r : Rings)
    → SoundDict d
    → IsSound r
    → SoundDict (put String-discrete s r d)
unfolding put
put-SoundDict [] s r h sound = (sound, tt)
put-SoundDict ((k, i) ∷ d) s r h sound = elim (String-discrete k s) [
  | yes p ↦ rw (if_pos _ p) (sound, h.1)
  | no p ↦ rw (if_neg _ p) (h.0, put-SoundDict d s r h.1 sound)
]

pub get-IsSound :
    (d : Dict String Rings) (s : String)
    → SoundDict d
    → IsSound (or_no_rings (get String-discrete s d))
unfolding get
get-IsSound [] s h = ((tt, tt, tt), (tt, tt, tt))
get-IsSound ((k, i) ∷ d) s h = elim (String-discrete k s) [
  | yes p ↦ rw (if_pos _ p) h.0
  | no p ↦ rw (if_neg _ p) (get-IsSound d s h.1)
]

gather-SoundDict :
    (d d' : Dict String Rings) (rows : List Row)
    → SoundDict d
    → Unique String-discrete d
    → Dated rows
    → gather d rows ≡ some d'
    → SoundDict d' × Unique String-discrete d'
unfolding gather
gather-SoundDict d d' [] h u dated e =
    let same : d ≡ d' = cc in subst (λ z. SoundDict z × Unique String-discrete z) same (h, u)
gather-SoundDict d d' ((s, p) ∷ rows) h u dated e =
    let r = or_no_rings (get String-discrete s d) in
    elim (Option-cases (with_incoming r p)) [
      | inl f ↦ absurd (cc (rw (f, gather) at e))
      | inr (r', f) ↦
          gather-SoundDict (put String-discrete s r' d) d' rows
            (put-SoundDict d s r' h
              (subst SoundResult f (with_incoming-IsSound r p (get-IsSound d s h) dated.0)))
            (put-Unique String-discrete s r' d u) dated.1 (rw (f, gather) at e)
    ]

pub gathered-IsOrdered :
    (d : Dict String Rings) (rows : List Row) (s : String)
    → Dated rows
    → gather [] (sort_rows rows) ≡ some d
    → IsOrdered (or_no_rings (get String-discrete s d))
gathered-IsOrdered d rows s dated e =
    let sound = gather-SoundDict [] d (sort_rows rows) tt tt (sort_rows-Dated rows dated) e in
    (get-IsSound d s sound.0).0

load_symbol-Frame : (c : Cache) (s : String) (i : Rings) → Frame c (load_symbol c s i) s
unfolding load_symbol
load_symbol-Frame c s i =
    let r = retained (updated i (rings_of c s)) in
    Frame-trans c (invalidate c none s) (set_rings (invalidate c none s) s r) s
      (invalidate-Frame c none s) (set_rings-Frame (invalidate c none s) s r)

rings_of-load_symbol :
    (c : Cache) (s : String) (i : Rings)
    → rings_of (load_symbol c s i) s ≡ retained (updated i (rings_of c s))
unfolding load_symbol
rings_of-load_symbol c s i = rings_of-set_rings_self (invalidate c none s) s _

abbrev pub loaded_rings : Option Rings → Rings → Rings
loaded_rings none old = old
loaded_rings (some i) old = retained (updated i old)

-- The loop over the symbols gives each its rings, and leaves the others.
rings_of-load_symbols :
    (c : Cache) (d : Dict String Rings) (x : String)
    → Unique String-discrete d
    → rings_of (load_symbols c d) x ≡ loaded_rings (get String-discrete x d) (rings_of c x)
unfolding load_symbols get
rings_of-load_symbols c [] x u = refl
rings_of-load_symbols c ((s, i) ∷ d) x (free, u) =
    let rest = rings_of-load_symbols (load_symbol c s i) d x u in
    elim (String-discrete s x) [
      | yes p ↦
          let gone : get String-discrete x d ≡ none =
            subst (λ z. get String-discrete z d ≡ none) p free in
          let mine : rings_of (load_symbol c s i) x ≡ retained (updated i (rings_of c x)) =
            subst (λ z. rings_of (load_symbol c s i) z ≡ retained (updated i (rings_of c z))) p
              (rings_of-load_symbol c s i) in
          rw (if_pos _ p) (rest ∙ rw (gone, mine) refl)
      | no p ↦
          let same = (load_symbol-Frame c s i).others x p in rw (if_neg _ p) (rest ∙ rw same refl)
    ]

Frame-refl : (c : Cache) (s : String) → Frame c c s
Frame-refl c s = record {
  recipes = refl;
  dependents = refl;
  others = λ y n. refl;
  entries = Sub-refl c.cached;
}

module _ (ar : Arithmetic) where
  load_symbol-IsCoherent :
      (c : Cache) (s : String) (i : Rings)
      → IsCoherent ar c
      → IsSound i
      → IsCoherent ar (load_symbol c s i)
  load_symbol-IsCoherent c s i coh sound =
      let r = retained (updated i (rings_of c s)) in
      let (o, al) = retained-IsSound i (rings_of c s) sound (coh.aligned s) in
      one_symbol-IsCoherent ar c (load_symbol c s i) s coh (load_symbol-Frame c s i)
        (rw (rings_of-load_symbol c s i) o) (rw (rings_of-load_symbol c s i) al)
        (λ x e reads h before.
          let kept =
            Sub-entry x e (load_symbol c s i).cached (invalidate c none s).cached
              (unfold load_symbol in (set_rings-Frame (invalidate c none s) s r).entries) h in
          let gone : entry_of x (invalidate c none s).cached ≡ none =
            told c c none x s (Frame-refl c s) coh.linked reads in
          absurd (cc (kept, gone)))

  load_symbols-IsCoherent :
      (c : Cache) (d : Dict String Rings)
      → IsCoherent ar c
      → Unique String-discrete d
      → SoundDict d
      → IsCoherent ar (load_symbols c d)
  unfolding load_symbols get
  load_symbols-IsCoherent c [] coh u h = coh
  load_symbols-IsCoherent c ((s, i) ∷ d) coh (free, u) h =
      load_symbols-IsCoherent (load_symbol c s i) d (load_symbol-IsCoherent c s i coh h.0) u h.1

  -- A batch that is accepted leaves every reference right that is kept.
  pub load-IsCoherent :
      (c c' : Cache) (rows : List Row)
      → IsCoherent ar c
      → Dated rows
      → load c rows ≡ some c'
      → IsCoherent ar c'
  unfolding load load_gathered
  load-IsCoherent c c' rows coh dated e = elim (Option-cases (gather [] (sort_rows rows))) [
    | inl f ↦ absurd (cc (rw f at e))
    | inr (d, f) ↦
        let (h, u) = gather-SoundDict [] d (sort_rows rows) tt tt (sort_rows-Dated rows dated) f in
        let same : load_symbols c d ≡ c' = ground (arith) in
        subst (IsCoherent ar) same (load_symbols-IsCoherent c d coh u h)
  ]

-- In a cache with rings in order, a batch with daily points at full minutes only, once it is
-- accepted, leaves the rings of a symbol that has no point in it. Every ring of any other symbol then
-- holds at every time: nothing if the time is older than the retention at the latest point, else the
-- point that was there, else the one that the batch brought.
pub load-HoldsLoaded :
    (c c' : Cache) (rows : List Row) (s : String)
    → AllOrdered c
    → Dated rows
    → load c rows ≡ some c'
    → (d : Dict String Rings) × (gather [] (sort_rows rows) ≡ some d)
      × (((get String-discrete s d ≡ none) × (rings_of c' s ≡ rings_of c s))
          ⊎ ((i : Rings) × (get String-discrete s d ≡ some i)
              × HoldsLoaded (rings_of c' s) i (rings_of c s)))
unfolding load load_gathered
load-HoldsLoaded c c' rows s ordered dated e = elim (Option-cases (gather [] (sort_rows rows))) [
  | inl f ↦ absurd (cc (rw f at e))
  | inr (d, f) ↦
      let (h, u) = gather-SoundDict [] d (sort_rows rows) tt tt (sort_rows-Dated rows dated) f in
      let same : load_symbols c d ≡ c' = ground arith in
      let now = rings_of-load_symbols c d s u in
      (
        d,
        f,
        elim (Option-cases (get String-discrete s d)) [
          | inl g ↦ inl (g, subst (λ z. rings_of z s ≡ rings_of c s) same (now ∙ rw g refl))
          | inr (i, g) ↦
              let sound : IsSound i = subst (λ o. IsSound (or_no_rings o)) g (get-IsSound d s h) in
              inr (
                i,
                g,
                subst (λ z. HoldsLoaded z i (rings_of c s))
                    (sym (now ∙ rw g refl) ∙ ap (λ z. rings_of z s) same)
                    (retained-HoldsLoaded i (rings_of c s) sound.0 (ordered s)),
              )
        ],
      )
]
