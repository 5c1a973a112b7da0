-- ===== src/History/Current.antt =====
-- cache.py: `add` and `prune` keep the references of all symbols right.
use mathlib.Core.Path.{subst}
use quick_price.Prelude.{
  dec_le, map, ℕ, ◌+◌, ◌-◌, ◌≤◌, ◌<◌, ◌≡◌, ◌⊎◌, refl, sym, ap, ◌∙◌, inl, inr, false, Option, none,
  some, String, List, [], ◌∷◌, ltb, Bool-cases, arith,
}
use quick_price.Prelude.Dict.{Dict}
use quick_price.History.{Point, Rings, bucket, prune_symbol, upserted}
use quick_price.History.Cache.{
  Cache, Cached, rings_of, set_rings, is_outdated, invalidate, prune_locked, prune_symbols, prune,
  add_upserted, add_point,
}
use quick_price.History.Sweep.{entry_of, Sub}
use quick_price.History.Depends.{AlikeRings}
use quick_price.History.Coherent.{Reads, Linked, IsCoherent}
use quick_price.History.Frames.{
  IsDated, WrittenResult, Written, upserted-Written, prune_symbol-IsOrdered,
  prune_symbol-AlignedRings, prune_symbol-same,
}
use quick_price.Synthetic.Base.{Arithmetic}
use quick_price.History.Changes.{
  rings_of-set_rings, Frame, set_rings-Frame, invalidate-Frame, Frame-trans, AlikeRings-refl, told,
  Frame-Linked, Frame-Reads, one_symbol-IsCoherent,
}

rings_of-invalidate :
    (c : Cache) (t : Option ℕ) (s x : String) → rings_of (invalidate c t s) x ≡ rings_of c x
unfolding invalidate rings_of
rings_of-invalidate c t s x = refl

pub rings_of-set_rings_self :
    (c : Cache) (s : String) (r : Rings) → rings_of (set_rings c s r) s ≡ r
rings_of-set_rings_self c s r = ground (arith, rings_of-set_rings c s s r)

-- The two ends of `_prune_symbol_locked`: nothing went, or the references are dropped.
prune_locked-cases :
    (c : Cache) (s : String) (now : ℕ)
    → (((prune_symbol (rings_of c s) now).1 ≡ 0)
        × ((prune_locked c s now).0 ≡ set_rings c s (prune_symbol (rings_of c s) now).0))
      ⊎ ((prune_locked c s now).0
          ≡ invalidate (set_rings c s (prune_symbol (rings_of c s) now).0) none s)
unfolding prune_locked
prune_locked-cases c s now = elim (Bool-cases (ltb 0 (prune_symbol (rings_of c s) now).1)) [
  | inl e ↦ inr (rw e refl)
  | inr e ↦ inl (unfold prune_symbol in ground arith, rw e refl)
]

prune_locked-Frame : (c : Cache) (s : String) (now : ℕ) → Frame c (prune_locked c s now).0 s
prune_locked-Frame c s now =
    let r = (prune_symbol (rings_of c s) now).0 in
    elim (prune_locked-cases c s now) [
      | inl (e, same) ↦ rw same (set_rings-Frame c s r)
      | inr same ↦ rw same (
          Frame-trans c (set_rings c s r) (invalidate (set_rings c s r) none s) s
            (set_rings-Frame c s r) (invalidate-Frame (set_rings c s r) none s))
    ]

rings_of-prune_locked :
    (c : Cache) (s : String) (now : ℕ)
    → rings_of (prune_locked c s now).0 s ≡ (prune_symbol (rings_of c s) now).0
rings_of-prune_locked c s now =
    let r = (prune_symbol (rings_of c s) now).0 in
    elim (prune_locked-cases c s now) [
      | inl (e, same) ↦ rw same (rings_of-set_rings_self c s r)
      | inr same ↦
          rw same (rings_of-invalidate (set_rings c s r) none s s ∙ rings_of-set_rings_self c s r)
    ]

-- A reference that is kept was made of rings of which nothing went.
prune_locked-kept :
    (c : Cache) (s x : String) (now : ℕ) (e : Cached)
    → Linked c
    → Reads c x s
    → entry_of x (prune_locked c s now).0.cached ≡ some e
    → rings_of (prune_locked c s now).0 s ≡ rings_of c s
prune_locked-kept c s x now e linked reads h =
    let r = (prune_symbol (rings_of c s) now).0 in
    elim (prune_locked-cases c s now) [
      | inl (zero_gone, same) ↦
          rings_of-prune_locked c s now ∙ prune_symbol-same (rings_of c s) now zero_gone
      | inr same ↦
          let kept = rw same at h in
          let gone : entry_of x (invalidate (set_rings c s r) none s).cached ≡ none =
            told c (set_rings c s r) none x s (set_rings-Frame c s r) linked reads in
          absurd (cc)
    ]

pub Sub-entry :
    (x : String) (e : Cached) (cached' cached : Dict String Cached)
    → Sub cached' cached
    → entry_of x cached' ≡ some e
    → entry_of x cached ≡ some e
Sub-entry x e cached' cached sub h = elim (sub x) [
  | inl gone ↦ absurd (cc (gone, h))
  | inr same ↦ sym same ∙ h
]

-- No kept reference has its hour inside the five minutes of the point, before the point's time.
abbrev pub OnTime : Cache → Point → Type 0
OnTime c p =
    (0 < bucket p.timestamp 5)
    × ((x : String) (e : Cached)
        → entry_of x c.cached ≡ some e
        → bucket p.timestamp 5 + 3_600 ≤ e.as_of
        → p.timestamp + 3_600 ≤ e.as_of)

module _ (ar : Arithmetic) where
  prune_locked-IsCoherent :
      (c : Cache) (s : String) (now : ℕ) → IsCoherent ar c → IsCoherent ar (prune_locked c s now).0
  prune_locked-IsCoherent c s now coh =
      one_symbol-IsCoherent ar c (prune_locked c s now).0 s coh (prune_locked-Frame c s now)
        (rw (rings_of-prune_locked c s now)
          (prune_symbol-IsOrdered (rings_of c s) now (coh.ordered s)))
        (rw (rings_of-prune_locked c s now)
          (prune_symbol-AlignedRings (rings_of c s) now (coh.aligned s)))
        (λ x e reads h before.
          subst (λ r. AlikeRings (e.as_of - 3_600) (rings_of c s) r)
            (sym (prune_locked-kept c s x now e coh.linked reads h))
            (AlikeRings-refl (e.as_of - 3_600) (rings_of c s)))

  prune_symbols-IsCoherent :
      (c : Cache) (ss : List String) (now : ℕ)
      → IsCoherent ar c
      → IsCoherent ar (prune_symbols c ss now).0
  unfolding prune_symbols
  prune_symbols-IsCoherent c [] now coh = coh
  prune_symbols-IsCoherent c (s ∷ ss) now coh =
      prune_symbols-IsCoherent (prune_locked c s now).0 ss now (prune_locked-IsCoherent c s now coh)

  pub prune-IsCoherent : (c : Cache) (now : ℕ) → IsCoherent ar c → IsCoherent ar (prune c now).0
  unfolding prune
  prune-IsCoherent c now coh = prune_symbols-IsCoherent c (map (λ entry. entry.0) c.rings) now coh

  module _ (c : Cache) (s : String) (p : Point) (r : Rings) where
    abbrev written : Cache
    written = set_rings c s r

    abbrev pruned : Cache
    pruned = (prune_locked written s p.timestamp).0

    abbrev added : Cache
    added = invalidate pruned (some p.timestamp) s

    pruned-Frame : Frame c pruned s
    pruned-Frame =
        Frame-trans c written pruned s (set_rings-Frame c s r)
          (prune_locked-Frame written s p.timestamp)

    added-Frame : Frame c added s
    added-Frame =
        Frame-trans c pruned added s pruned-Frame (invalidate-Frame pruned (some p.timestamp) s)

    rings_of-added : rings_of added s ≡ (prune_symbol r p.timestamp).0
    rings_of-added =
        rings_of-invalidate pruned (some p.timestamp) s s
        ∙ rings_of-prune_locked written s p.timestamp
        ∙ ap (λ z. (prune_symbol z p.timestamp).0) (rings_of-set_rings_self c s r)

    -- A reference that outlives the point was made of rings that are as before up to its hour.
    added-alike :
        (x : String) (e : Cached)
        → IsCoherent ar c
        → Written (rings_of c s) p r
        → OnTime c p
        → Reads c x s
        → entry_of x added.cached ≡ some e
        → entry_of x c.cached ≡ some e
        → AlikeRings (e.as_of - 3_600) (rings_of c s) (rings_of added s)
    added-alike x e coh (o, al, alike) (after, early) reads h before =
        let f = set_rings-Frame c s r in
        let sub = (invalidate-Frame pruned (some p.timestamp) s).entries in
        let same : rings_of pruned s ≡ rings_of written s =
          prune_locked-kept written s x p.timestamp e (Frame-Linked c written s f coh.linked)
            (Frame-Reads c written s x s f reads)
            (Sub-entry x e added.cached pruned.cached sub h) in
        let recent : is_outdated (some p.timestamp) (some e) ≡ false =
          (rw h at (told c pruned (some p.timestamp) x s pruned-Frame coh.linked reads)) in
        let late : e.as_of < p.timestamp + 3_600 = unfold is_outdated in ground arith in
        let on_time = early x e before in
        subst (λ z. AlikeRings (e.as_of - 3_600) (rings_of c s) z)
          (sym (
            rings_of-invalidate pruned (some p.timestamp) s s
            ∙ same
            ∙ rings_of-set_rings_self c s r))
          (alike (e.as_of - 3_600) (elim (dec_le (bucket p.timestamp 5 + 3_600) e.as_of) [
            | yes l ↦ absurd (let k = on_time l in omega arith)
            | no l ↦ omega arith
          ]))

    added-IsCoherent :
        IsCoherent ar c → Written (rings_of c s) p r → OnTime c p → IsCoherent ar added
    added-IsCoherent coh (o, al, alike) on_time =
        one_symbol-IsCoherent ar c added s coh added-Frame
          (rw rings_of-added (prune_symbol-IsOrdered r p.timestamp o))
          (rw rings_of-added (prune_symbol-AlignedRings r p.timestamp al))
          (λ x e reads h before. added-alike x e coh (o, al, alike) on_time reads h before)

  add_upserted-IsCoherent :
      (c c' : Cache) (s : String) (p : Point) (o : Option Rings)
      → IsCoherent ar c
      → WrittenResult (rings_of c s) p o
      → OnTime c p
      → add_upserted c s p o ≡ some c'
      → IsCoherent ar c'
  unfolding add_upserted
  add_upserted-IsCoherent c c' s p none coh w on_time e = absurd (cc e)
  add_upserted-IsCoherent c c' s p (some r) coh w on_time e =
      let same : added c s p r ≡ c' = ground arith in
      subst (IsCoherent ar) same (added-IsCoherent c s p r coh w on_time)

  pub add_point-IsCoherent :
      (c c' : Cache) (s : String) (p : Point)
      → IsCoherent ar c
      → OnTime c p
      → IsDated p
      → add_point c s p ≡ some c'
      → IsCoherent ar c'
  unfolding add_point
  add_point-IsCoherent c c' s p coh on_time dated e =
      add_upserted-IsCoherent c c' s p (upserted (rings_of c s) p) coh
        (upserted-Written (rings_of c s) p (coh.ordered s) (coh.aligned s) dated) on_time e
