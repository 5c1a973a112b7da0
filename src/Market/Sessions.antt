-- ===== src/Market/Sessions.antt =====
-- market.py: what the next opening and the last close are.
use mathlib.Core.Path.{subst}
use quick_price.Prelude.Texts.{not_eq}
use quick_price.Prelude.{
  ℕ, zero, suc, ◌+◌, ◌-◌, ◌/◌, ◌%◌, ◌≤◌, ◌<◌, ◌≡◌, ◌≢◌, ◌↔◌, ◌∙◌, sym, refl, inl, inr, Bool, true,
  false, not, ◌&&◌, none, some, String, ltb, leb, if◌then◌else◌, arith, Bool-cases,
}
use quick_price.Market.{
  Local, us_equity, minute, weekday, is_after, open_at, next_open_from, next_open,
  scheduled_market_status, close_at, is_close_day, last_close_from, last_close,
}

-- A day with a session whose opening is still to come.
abbrev pub OpensOn : Local → ℕ → Type 0
OpensOn l day = (weekday day < 5) × (is_after day open_at l ≡ true)

opens : ℕ → Local → Bool
opens day l = ltb (weekday day) 5 && is_after day open_at l

opens-OpensOn : (day : ℕ) (l : Local) → opens day l ≡ true → OpensOn l day
unfolding opens
opens-OpensOn day l e = (ground arith, ground arith)

OpensOn-opens : (day : ℕ) (l : Local) → OpensOn l day → opens day l ≡ true
unfolding opens
OpensOn-opens day l o = ground arith

next_open_from-zero : (day : ℕ) (l : Local) → next_open_from zero day l ≡ none
unfolding next_open_from
next_open_from-zero day l = refl

next_open_from-cons :
    (rounds day : ℕ) (l : Local)
    → next_open_from (suc rounds) day l
      ≡ (if opens day l then some day else next_open_from rounds (day + 1) l)
unfolding next_open_from opens
next_open_from-cons rounds day l = refl

-- The day that is found has such an opening, and no day before it has.
next_open_from-OpensOn :
    (rounds day d : ℕ) (l : Local)
    → next_open_from rounds day l ≡ some d
    → OpensOn l d × ((e : ℕ) → day ≤ e → OpensOn l e → d ≤ e)
next_open_from-OpensOn zero day d l e = absurd (cc (sym (next_open_from-zero day l) ∙ e))
next_open_from-OpensOn (suc rounds) day d l e = elim (Bool-cases (opens day l)) [
  | inl here ↦
      let same : some day ≡ some d = rw here at (rw (next_open_from-cons rounds day l) at e) in
      let is_d : day ≡ d = cc in
      (subst (OpensOn l) is_d (opens-OpensOn day l here), (λ f le o. omega arith))
  | inr later ↦
      let (o, first) =
        next_open_from-OpensOn rounds (day + 1) d l
          (rw later at (rw (next_open_from-cons rounds day l) at e)) in
      (o, (λ f le of. first f (not_here day f l later le of) of))
]
  where
    not_here : (day f : ℕ) (l : Local) → opens day l ≡ false → day ≤ f → OpensOn l f → day + 1 ≤ f
    not_here day f l e le o = ground (arith, OpensOn-opens f l)

next_open_from-some :
    (rounds day e : ℕ) (l : Local)
    → OpensOn l e
    → day ≤ e
    → e < day + rounds
    → (d : ℕ) × (next_open_from rounds day l ≡ some d)
next_open_from-some zero day e l o le lt = absurd (omega arith)
next_open_from-some (suc rounds) day e l o le lt = elim (Bool-cases (opens day l)) [
  | inl here ↦ (day, next_open_from-cons rounds day l ∙ rw here refl)
  | inr later ↦
      let (d, found) = next_open_from-some rounds (day + 1) e l o (not_here later) (omega arith) in
      (d, next_open_from-cons rounds day l ∙ rw later found)
]
  where
    not_here : opens day l ≡ false → day + 1 ≤ e
    not_here f = ground (arith, OpensOn-opens e l)

-- One of the next three days is a weekday.
weekday_ahead : (l : Local) → (e : ℕ) × OpensOn l e × (l.day ≤ e) × (e ≤ l.day + 3)
unfolding weekday is_after
weekday_ahead l = elim (Bool-cases (ltb ((l.day + 1) % 7) 5)) [
  | inl a ↦ (l.day + 1, (ground arith, ground arith), omega arith, omega arith)
  | inr a ↦ elim (Bool-cases (ltb ((l.day + 2) % 7) 5)) [
    | inl b ↦ (l.day + 2, (ground arith, ground arith), omega arith, omega arith)
    | inr b ↦ (l.day + 3, (ground arith, ground arith), omega arith, omega arith)
  ]
]

-- The loop always finds an opening, at most three days ahead, so that the error behind it is never
-- raised. It is on a weekday and still to come, and no other such opening is earlier.
pub next_open_lem :
    (l : Local)
    → (d : ℕ) × (next_open l ≡ some d)
      × OpensOn l d
      × (d ≤ l.day + 3)
      × ((e : ℕ) → l.day ≤ e → OpensOn l e → d ≤ e)
unfolding next_open
next_open_lem l =
    let (e, o, le, near) = weekday_ahead l in
    let (d, found) = next_open_from-some 8 l.day e l o le (omega arith) in
    let (od, first) = next_open_from-OpensOn 8 l.day d l found in
    let ahead : d ≤ e = first e le o in (d, found, od, omega arith, first)

closes : ℕ → Local → Bool
closes day l = is_close_day us_equity day && not (is_after day (close_at us_equity) l)

last_close_from-zero : (day : ℕ) (l : Local) → last_close_from us_equity zero day l ≡ none
unfolding last_close_from
last_close_from-zero day l = refl

last_close_from-cons :
    (rounds day : ℕ) (l : Local)
    → last_close_from us_equity (suc rounds) day l
      ≡ (if closes day l then some day else last_close_from us_equity rounds (day - 1) l)
unfolding last_close_from closes
last_close_from-cons rounds day l = refl

last_close_from-closes :
    (rounds day d : ℕ) (l : Local)
    → last_close_from us_equity rounds day l ≡ some d
    → closes d l ≡ true
last_close_from-closes zero day d l e = absurd (cc (sym (last_close_from-zero day l) ∙ e))
last_close_from-closes (suc rounds) day d l e = elim (Bool-cases (closes day l)) [
  | inl here ↦
      let same : some day ≡ some d = rw here at (rw (last_close_from-cons rounds day l) at e) in
      let is_d : day ≡ d = cc in subst (λ z. closes z l ≡ true) is_d here
  | inr later ↦
      last_close_from-closes rounds (day - 1) d l
        (rw later at (rw (last_close_from-cons rounds day l) at e))
]

last_close-today : (l : Local) → (last_close us_equity l ≡ some l.day) ↔ (closes l.day l ≡ true)
unfolding last_close
last_close-today l =
    (last_close_from-closes 8 l.day l.day l, (λ e. last_close_from-cons 7 l.day l ∙ rw e refl))

next_open-today : (l : Local) → (next_open l ≡ some l.day) ↔ (opens l.day l ≡ true)
unfolding next_open
next_open-today l = (
  (λ e. OpensOn-opens l.day l (next_open_from-OpensOn 8 l.day l.day l e).0),
  (λ e. next_open_from-cons 7 l.day l ∙ rw e refl),
)

if-open : (b : Bool) → ◌≡◌ {A = String} (if b then "open" else "closed") "open" → b ≡ true
if-open true e = refl
if-open false e = absurd (not_eq "closed" "open" refl e)

status-open :
    (l : Local)
    → (scheduled_market_status us_equity l ≡ "open")
      ↔ ((weekday l.day < 5) × (opens l.day l ≡ false) × (closes l.day l ≡ false))
unfolding scheduled_market_status opens closes is_close_day is_after
status-open l = (
  (λ e.
      let h =
        if-open (ltb (weekday l.day) 5 && leb 570 (l.clock / minute) && ltb (l.clock / minute) 960)
          e in
      (ground arith, ground arith, ground arith)),
  (λ h.
      let b : (ltb (weekday l.day) 5 && leb 570 (l.clock / minute) && ltb (l.clock / minute) 960)
          ≡ true =
        ground arith in
      rw b refl),
)

is_false : (b : Bool) → b ≢ true → b ≡ false
is_false true n = absurd (n refl)
is_false false n = refl

-- United States equities are open exactly on a weekday whose opening is not still to come and whose
-- close has not been.
pub equity_open_iff :
    (l : Local)
    → (scheduled_market_status us_equity l ≡ "open")
      ↔ ((weekday l.day < 5) × (next_open l ≢ some l.day) × (last_close us_equity l ≢ some l.day))
equity_open_iff l = (
  (λ e.
      let (wd, o, c) = (status-open l).0 e in
      (
        wd,
        (λ today. absurd (cc (sym o ∙ (next_open-today l).0 today))),
        (λ today. absurd (cc (sym c ∙ (last_close-today l).0 today))),
      )),
  (λ h. (status-open l).1 (
    h.0,
    is_false _ (λ t. h.1 ((next_open-today l).1 t)),
    is_false _ (λ t. h.2 ((last_close-today l).1 t)),
  )),
)
