-- ===== src/Router/Cleanups.antt =====
-- providers/router.py, `_cleanup_flight` and the `finally` of `_execute`: a fetch that has ended is
-- not kept.
use quick_price.Prelude.{
  ℕ, ◌<◌, ◌≡◌, ◌≢◌, refl, inl, inr, true, some, List, [], ◌∷◌, ◌==◌, arith, Bool-cases,
  Option-cases,
}
use quick_price.Prelude.Dict.{get, get-put, get-pop}
use quick_price.Router.Flights.{
  Flights, Event, calls, finishes, leaves, cleans, new, create_task, join, is_done, finish,
  is_flight, cleanup_flight, leave, step, run,
}
use quick_price.Router.Shared.{IsSound, finish-cases, run-new-IsSound}

module _ {K R : Type 0} (dec : Discrete K) where
  -- `i` was created, and is no flight of any key.
  abbrev IsGone : Flights K R → ℕ → Type 0
  IsGone f i = (i < f.next) × ((k : K) → get dec k f.flights ≢ some i)

  join-IsGone : (f : Flights K R) (k : K) (i : ℕ) → IsGone f i → IsGone (join dec f k).0 i
  unfolding join create_task
  join-IsGone f k i (lt, free) = elim (Option-cases (get dec k f.flights)) [
    | inl e ↦
        rw (e, join) (omega arith, λ j h. ground (arith, get-put dec k j f.next f.flights, free j))
    | inr (j, e) ↦ rw (e, join) (lt, free)
  ]

  finish-IsGone :
      (f : Flights K R) (j : ℕ) (r : R) (i : ℕ) → IsGone f i → IsGone (finish dec f j r) i
  finish-IsGone f j r i g = elim (finish-cases dec f j r) [
    | inl same ↦ rw same g
    | inr (t, e, q, made) ↦ rw made g
  ]

  cleanup_flight-IsGone :
      (f : Flights K R) (k : K) (j i : ℕ) → IsGone f i → IsGone (cleanup_flight dec f k j) i
  unfolding cleanup_flight
  cleanup_flight-IsGone f k j i (lt, free) = elim (Bool-cases (is_flight (get dec k f.flights) j)) [
    | inl e ↦ rw e (lt, λ n h. ground (arith, get-pop dec k n f.flights, free n))
    | inr e ↦ rw e (lt, free)
  ]

  leave-IsGone : (f : Flights K R) (k : K) (j i : ℕ) → IsGone f i → IsGone (leave dec f k j) i
  unfolding leave
  leave-IsGone f k j i g = elim (Bool-cases (is_done dec f j)) [
    | inl e ↦ rw e (cleanup_flight-IsGone f k j i g)
    | inr e ↦ rw e g
  ]

  step-IsGone : (f : Flights K R) (e : Event K R) (i : ℕ) → IsGone f i → IsGone (step dec f e) i
  unfolding step
  step-IsGone f (calls k) i g = join-IsGone f k i g
  step-IsGone f (finishes j r) i g = finish-IsGone f j r i g
  step-IsGone f (leaves k j) i g = leave-IsGone f k j i g
  step-IsGone f (cleans k j) i g = unfold leave in leave-IsGone f k j i g

  run-IsGone :
      (f : Flights K R) (es : List (Event K R)) (i : ℕ) → IsGone f i → IsGone (run dec f es) i
  unfolding run
  run-IsGone f [] i g = g
  run-IsGone f (e ∷ es) i g = run-IsGone (step dec f e) es i (step-IsGone f e i g)

  join-ne_gone : (f : Flights K R) (k : K) (i : ℕ) → IsGone f i → (join dec f k).1 ≢ i
  unfolding join
  join-ne_gone f k i (lt, free) same = elim (Option-cases (get dec k f.flights)) [
    | inl e ↦ let q : f.next ≡ i = rw (e, join) at same in omega arith
    | inr (j, e) ↦ let q : j ≡ i = rw (e, join) at same in free k (rw e (rw q refl))
  ]

  left-IsGone :
      (f : Flights K R) (k : K) (i : ℕ)
      → IsSound dec f
      → is_done dec f i ≡ true
      → get dec k f.flights ≡ some i
      → IsGone (leave dec f k i) i
  unfolding leave cleanup_flight is_flight
  left-IsGone f k i s done h =
      let (t, e, q) = s.known k i h in
      let same : (i == i) ≡ true = ground arith in
      rw (done, h, same)
        (
          s.below i t e,
          λ j g.
              let old : get dec j f.flights ≡ some i = ground (arith, get-pop dec k j f.flights) in
              let (u, e', q') = s.known j i old in ground (arith, get-pop dec k j f.flights),
        )

  -- Once the callback of an ended fetch that is still the flight of its key, or a caller of it, has
  -- cleaned up, the fetch is joined by no later call of any key, whatever steps come before and in
  -- between.
  pub cleaned-not_joined :
      (before after : List (Event K R)) (k j : K) (i : ℕ)
      → is_done dec (run dec (new dec) before) i ≡ true
      → get dec k (run dec (new dec) before).flights ≡ some i
      → (join dec (run dec (leave dec (run dec (new dec) before) k i) after) j).1 ≢ i
  cleaned-not_joined before after k j i done h =
      let f = run dec (new dec) before in
      join-ne_gone (run dec (leave dec f k i) after) j i (
        run-IsGone (leave dec f k i) after i
          (left-IsGone f k i (run-new-IsSound dec before) done h))
