-- ===== src/Registry/Resolve.antt =====
-- registry.py: what a text resolves to in a registry that was built.
use mathlib.Core.Path.{subst}
use quick_price.Prelude.{◌≡◌, inl, inr, some, String, List, [], ◌∷◌, All, Bool-cases}
use quick_price.Registry.{
  Verdict, valid, validate_plugin_routes, validate_cross_plugin_synthetic_routes,
}
use quick_price.Registry.Instruments.{Texts, Instrument, normalize_symbol}
use quick_price.Registry.Identities.{
  Declared, Registry, built, add_instrument, add_instruments, is_bad_plugin, add_plugin,
  add_plugins, build, find, resolve, checked_routes, routes_of,
}
use quick_price.Registry.Aliases.{and_then-built, built-eq, Keeps, Found, add_instrument-Found}

module _ (x : Texts) where
  Found-Keeps :
      (reg reg' : Registry) (item : Instrument)
      → Keeps x reg reg'
      → Found x reg item
      → Found x reg' item
  unfolding resolve
  Found-Keeps reg reg' item keeps h =
      (keeps (normalize_symbol x item.symbol) item h.0, all item.aliases h.1)
    where
      all :
          (names : List String)
          → All (λ a. resolve x reg a ≡ some item) names
          → All (λ a. resolve x reg' a ≡ some item) names
      all [] k = tt
      all (a ∷ names) k = (keeps (normalize_symbol x a) item k.0, all names k.1)

  All-Found-Keeps :
      (reg reg' : Registry) (items : List Instrument)
      → Keeps x reg reg'
      → All (Found x reg) items
      → All (Found x reg') items
  All-Found-Keeps reg reg' [] keeps h = tt
  All-Found-Keeps reg reg' (item ∷ items) keeps h =
      (Found-Keeps reg reg' item keeps h.0, All-Found-Keeps reg reg' items keeps h.1)

  add_instruments-Found :
      (reg reg' : Registry) (items : List Instrument)
      → add_instruments x reg items ≡ built reg'
      → Keeps x reg reg' × All (Found x reg') items
  unfolding add_instruments
  add_instruments-Found reg reg' [] e = (subst (Keeps x reg) (built-eq e) (λ s i h. h), tt)
  add_instruments-Found reg reg' (item ∷ items) e =
      let (mid, here, later) = and_then-built (add_instrument x reg item) _ e in
      let (keeps, found) = add_instrument-Found x reg mid item here in
      let (keeps', all) = add_instruments-Found mid reg' items later in
      ((λ s i h. keeps' s i (keeps s i h)), (Found-Keeps mid reg' item keeps' found, all))

  checked_routes-built :
      (v : Verdict) (reg reg' : Registry) → checked_routes x v reg ≡ built reg' → reg ≡ reg'
  unfolding checked_routes
  checked_routes-built valid reg reg' e = built-eq e
  checked_routes-built (Verdict.invalid f) reg reg' e = absurd (cc e)
  checked_routes-built Verdict.out_of_fuel reg reg' e = absurd (cc e)

  add_plugin-Found :
      (reg reg' : Registry) (p : Declared)
      → add_plugin x reg p ≡ built reg'
      → Keeps x reg reg' × All (Found x reg') p.instruments
  unfolding add_plugin find
  add_plugin-Found reg reg' p e = elim (Bool-cases (is_bad_plugin x reg p)) [
    | inl bad ↦ absurd (cc (rw bad at e))
    | inr good ↦
        let listed = record reg { plugin_ids = x.strip p.plugin_id ∷ reg.plugin_ids } in
        let (mid, here, later) =
          and_then-built
            (checked_routes x (validate_plugin_routes (normalize_symbol x) x.strip p.routes) listed)
            (λ r. add_instruments x r p.instruments) (rw good at e) in
        let same =
          checked_routes-built (validate_plugin_routes (normalize_symbol x) x.strip p.routes) listed
            mid here in
        let (keeps, all) = add_instruments-Found mid reg' p.instruments later in
        let listed_keeps : Keeps x reg listed = (λ s i h. h) in
        let mid_keeps : Keeps x reg mid = subst (Keeps x reg) same listed_keeps in
        ((λ s i h. keeps s i (mid_keeps s i h)), all)
  ]

  add_plugins-Found :
      (reg reg' : Registry) (ps : List Declared)
      → add_plugins x reg ps ≡ built reg'
      → Keeps x reg reg' × All (λ p. All (Found x reg') p.instruments) ps
  unfolding add_plugins
  add_plugins-Found reg reg' [] e = (subst (Keeps x reg) (built-eq e) (λ s i h. h), tt)
  add_plugins-Found reg reg' (p ∷ ps) e =
      let (mid, here, later) = and_then-built (add_plugin x reg p) _ e in
      let (keeps, found) = add_plugin-Found reg mid p here in
      let (keeps', all) = add_plugins-Found mid reg' ps later in
      (
        (λ s i h. keeps' s i (keeps s i h)),
        (All-Found-Keeps mid reg' p.instruments keeps' found, all),
      )

  -- In a registry that was built, each instrument of each plugin is what its symbol and each of its
  -- aliases resolve to.
  pub resolve-build :
      (ps : List Declared) (reg : Registry)
      → build x ps ≡ built reg
      → All (λ p. All (Found x reg) p.instruments) ps
  unfolding build
  resolve-build [] reg e = absurd (cc e)
  resolve-build (p ∷ ps) reg e =
      let (mid, here, later) =
        and_then-built
          (add_plugins x (record { instruments = []; aliases = []; plugin_ids = [] }) (p ∷ ps)) _
          e in
      let same =
        checked_routes-built
          (validate_cross_plugin_synthetic_routes (normalize_symbol x) (routes_of x (p ∷ ps))) mid
          reg later in
      subst (λ r. All (λ q. All (Found x r) q.instruments) (p ∷ ps)) same
        (add_plugins-Found (record { instruments = []; aliases = []; plugin_ids = [] }) mid (p ∷ ps)
          here).1
