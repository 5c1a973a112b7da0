-- ===== src/History/Invalidate.antt =====
-- cache.py, `_invalidate_references_locked`: after it the references of a symbol and of what is made
-- of it are up to date or gone, and no reference is new.
use quick_price.Prelude.{
  ℕ, suc, ◌≡◌, refl, true, false, Option, none, String, List, [], ◌∷◌, ◌++◌, All, arith, length,
}
use quick_price.Prelude.Dict.{Dict, get}
use quick_price.Registry.Search.{mem}
use quick_price.Registry.Order.{mem-cons}
use quick_price.Registry.Cycles.{mem-ds, All-map}
use quick_price.Registry.Fuel.{room-nil}
use quick_price.History.Cache.{Cache, dependents_of, all_dependents, invalidate}
use quick_price.History.Sweep.{entry_of, Kept, Sub, Closed, sweep-Goes}

pub mem-append_left : (x : String) (xs ys : List String) → mem x xs ≡ true → mem x (xs ++ ys) ≡ true
unfolding mem
mem-append_left x [] ys m = absurd (cc m)
mem-append_left x (y ∷ xs) ys m = ground (arith, mem-append_left x xs ys)

pub mem-append_right :
    (x : String) (xs ys : List String) → mem x ys ≡ true → mem x (xs ++ ys) ≡ true
unfolding mem
mem-append_right x [] ys m = m
mem-append_right x (y ∷ xs) ys m = ground (arith, mem-append_right x xs ys)

dependents-all :
    (dependents : Dict String (List String)) (s d : String)
    → mem d (dependents_of dependents s) ≡ true
    → mem d (all_dependents dependents) ≡ true
unfolding dependents_of all_dependents get
dependents-all [] s d m = absurd (unfold mem in cc m)
dependents-all ((j, ds) ∷ rest) s d m = ground (
  arith,
  mem-append_left d ds (all_dependents rest),
  mem-append_right d ds (all_dependents rest),
  dependents-all rest s d,
)

not_member : (x : String) → mem x [] ≡ false
unfolding mem
not_member x = refl

module _ (c : Cache) (t : Option ℕ) (s : String) where
  abbrev symbols : List String
  symbols = s ∷ all_dependents c.dependents

  symbols-Closed : Closed (dependents_of c.dependents) t symbols
  symbols-Closed x =
      mem-ds (dependents_of c.dependents x) (λ d. mem d symbols ≡ true)
        (λ d m. unfold mem in ground (arith, dependents-all c.dependents x d m))

  pub invalidate_lem :
      Sub (invalidate c t s).cached c.cached
      × Kept t (entry_of s (invalidate c t s).cached)
      × All (λ d. Kept t (entry_of d (invalidate c t s).cached)) (dependents_of c.dependents s)
  unfolding invalidate
  invalidate_lem =
      let deps = dependents_of c.dependents in
      let fuel : ℕ = suc (suc (length (all_dependents c.dependents))) in
      let (w, e, done, grows, sub, at_s, all) =
        sweep-Goes deps t symbols fuel s symbols-Closed
          (mem-cons (λ x. none) s (all_dependents c.dependents)) [] c.cached
          (omega (arith, room-nil symbols)) (λ x m. absurd (cc (not_member x, m))) in
      rw e (
        sub,
        done s at_s,
        All-map (λ d. mem d w.0 ≡ true) (λ d. Kept t (entry_of d w.1)) (deps s) (λ d m. done d m)
            (all (not_member s)),
      )
