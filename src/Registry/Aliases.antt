-- ===== src/Registry/Aliases.antt =====
-- registry.py: what an instrument that is added resolves to, and what was there before it.
use text.Mathlib.TextEquality.{eq_iff}
use mathlib.Core.Path.{subst}
use quick_price.Prelude.{
  ◌≡◌, refl, sym, inl, inr, Bool, true, false, ◌&&◌, none, some, String, List, [], ◌∷◌, All,
  Option-cases, arith,
}
use quick_price.Prelude.Dict.{get, put, get-put}
use quick_price.Prelude.Texts.{String-discrete}
use quick_price.Registry.Instruments.{Texts, Instrument, is_valid_instrument, normalize_symbol}
use quick_price.Registry.Identities.{
  Registry, Built, built, refused, and_then, is_taken, add_alias, add_aliases, add_instrument, find,
  resolve, with_symbol,
}

pub and_then-built :
    {A B : Type 0} (m : Built A) (next : A → Built B) {b : B}
    → and_then m next ≡ built b
    → (a : A) × (m ≡ built a) × (next a ≡ built b)
and_then-built (refused e) next h = absurd (cc h)
and_then-built (built a) next h = (a, refl, h)

and-left : (a b : Bool) → (a && b) ≡ true → a ≡ true
and-left a b h = ground arith

pub built-eq : {A : Type 0} {a b : A} → built a ≡ built b → a ≡ b
built-eq h = cc

module _ (x : Texts) where
  -- Whatever one registry finds, another finds too.
  abbrev pub Keeps : Registry → Registry → Type 0
  Keeps reg reg' =
      (s : String) (item : Instrument) → find x reg s ≡ some item → find x reg' s ≡ some item

  free_name :
      (reg : Registry) (s : String)
      → is_taken x reg s ≡ false
      → (get String-discrete s reg.instruments ≡ none) × (get String-discrete s reg.aliases ≡ none)
  unfolding is_taken
  free_name reg s e = (ground arith, ground arith)

  with_symbol-Keeps :
      (reg : Registry) (item : Instrument)
      → is_taken x reg item.symbol ≡ false
      → Keeps reg (with_symbol x reg item)
        × (find x (with_symbol x reg item) item.symbol ≡ some item)
  unfolding with_symbol find
  with_symbol-Keeps reg item free =
      let (no_item, no_alias) = free_name reg item.symbol free in
      (
        (λ s i e. elim (Option-cases (get String-discrete s reg.aliases)) [
          | inl n ↦ ground (arith, get-put String-discrete item.symbol s item reg.instruments)
          | inr (c, n) ↦ ground (arith, get-put String-discrete item.symbol c item reg.instruments)
        ]),
        ground (arith, get-put String-discrete item.symbol item.symbol item reg.instruments),
      )

  with_alias : String → Registry → String → Registry
  with_alias symbol reg alias = record reg {
    aliases = put String-discrete alias symbol reg.aliases;
  }

  with_alias-Keeps :
      (symbol : String) (reg : Registry) (alias : String)
      → is_taken x reg alias ≡ false
      → Keeps reg (with_alias symbol reg alias)
  unfolding with_alias find
  with_alias-Keeps symbol reg alias free s i e =
      let (no_item, no_alias) = free_name reg alias free in
      elim (Option-cases (get String-discrete s reg.aliases)) [
        | inl n ↦ ground (arith, get-put String-discrete alias s symbol reg.aliases)
        | inr (c, n) ↦ ground (arith, get-put String-discrete alias s symbol reg.aliases)
      ]

  -- The alias finds what its symbol finds.
  with_alias-find :
      (symbol : String) (reg : Registry) (alias : String) (item : Instrument)
      → get String-discrete symbol reg.instruments ≡ some item
      → find x (with_alias symbol reg alias) alias ≡ some item
  unfolding with_alias find
  with_alias-find symbol reg alias item e =
      ground (arith, get-put String-discrete alias alias symbol reg.aliases)

  add_alias-built :
      (symbol : String) (reg reg' : Registry) (alias : String)
      → add_alias x symbol reg alias ≡ built reg'
      → (is_taken x reg alias ≡ false) × (with_alias symbol reg alias ≡ reg')
  unfolding add_alias with_alias
  add_alias-built symbol reg reg' alias e = (ground arith, ground arith)

  -- An instrument as a registry finds it, by its symbol and by its aliases.
  abbrev pub Found : Registry → Instrument → Type 0
  Found reg item =
      (resolve x reg item.symbol ≡ some item)
      × All (λ alias. resolve x reg alias ≡ some item) item.aliases

  add_aliases-Found :
      (symbol : String) (item : Instrument) (reg reg' : Registry) (raws : List String)
      → add_aliases x symbol reg raws ≡ built reg'
      → get String-discrete symbol reg.instruments ≡ some item
      → Keeps reg reg' × All (λ raw. resolve x reg' raw ≡ some item) raws
  unfolding add_aliases resolve
  add_aliases-Found symbol item reg reg' [] e held =
      (subst (Keeps reg) (built-eq e) (λ s i h. h), tt)
  add_aliases-Found symbol item reg reg' (raw ∷ raws) e held =
      let (mid, here, later) =
        and_then-built (add_alias x symbol reg (normalize_symbol x raw)) _ e in
      let (free, same) = add_alias-built symbol reg mid (normalize_symbol x raw) here in
      let held' =
        subst (λ r. get String-discrete symbol r.instruments ≡ some item) same
          (unfold with_alias in held) in
      let (keeps, all) = add_aliases-Found symbol item mid reg' raws later held' in
      let here_keeps =
        subst (Keeps reg) same (with_alias-Keeps symbol reg (normalize_symbol x raw) free) in
      let found =
        subst (λ r. find x r (normalize_symbol x raw) ≡ some item) same
          (with_alias-find symbol reg (normalize_symbol x raw) item held) in
      ((λ s i h. keeps s i (here_keeps s i h)), (keeps (normalize_symbol x raw) item found, all))

  valid_symbol :
      (item : Instrument)
      → is_valid_instrument x item ≡ true
      → normalize_symbol x item.symbol ≡ item.symbol
  unfolding is_valid_instrument
  valid_symbol item h = (eq_iff (normalize_symbol x item.symbol) item.symbol).0 (and-left _ _ h)

  find_by_symbol :
      (reg : Registry) (item : Instrument)
      → get String-discrete item.symbol (with_symbol x reg item).instruments ≡ some item
  unfolding with_symbol
  find_by_symbol reg item =
      ground (arith, get-put String-discrete item.symbol item.symbol item reg.instruments)

  add_instrument-built :
      (reg reg' : Registry) (item : Instrument)
      → add_instrument x reg item ≡ built reg'
      → (is_valid_instrument x item ≡ true)
        × (is_taken x reg item.symbol ≡ false)
        × (add_aliases x item.symbol (with_symbol x reg item) item.aliases ≡ built reg')
  unfolding add_instrument
  add_instrument-built reg reg' item e = (ground arith, ground arith, ground arith)

  pub add_instrument-Found :
      (reg reg' : Registry) (item : Instrument)
      → add_instrument x reg item ≡ built reg'
      → Keeps reg reg' × Found reg' item
  unfolding resolve
  add_instrument-Found reg reg' item e =
      let (ok, free, added) = add_instrument-built reg reg' item e in
      let (keeps, here) = with_symbol-Keeps reg item free in
      let (keeps', all) =
        add_aliases-Found item.symbol item (with_symbol x reg item) reg' item.aliases added
          (find_by_symbol reg item) in
      (
        (λ s i h. keeps' s i (keeps s i h)),
        (
          subst (λ s. find x reg' s ≡ some item) (sym (valid_symbol item ok))
              (keeps' item.symbol item here),
          all,
        ),
      )
