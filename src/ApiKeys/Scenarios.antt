-- ===== src/ApiKeys/Scenarios.antt =====
-- One key that is revoked, and another that is made.
use mathlib.Core.Path.{subst}
use text.Mathlib.Text.{◌==◌ as str_eq}
use quick_price.Prelude.{
  ℕ, ◌≡◌, ◌≢◌, refl, sym, ◌∙◌, All, true, none, some, String, List, [], ◌∷◌, if◌then◌else◌,
}
use quick_price.Prelude.Texts.{not_eq}
use quick_price.ApiKeys.{Texts, Key, ok, err, failed, is_key_hash}
use quick_price.ApiKeys.Manager.{
  Manager, Call, creating, perform, run, create, revoke, authenticate_digest, generated, is_before,
}
use quick_price.ApiKeys.Forms.{Laws, NewIds, ok-eq}
use quick_price.ApiKeys.Runs.{IsTable, FreshRun}
use quick_price.ApiKeys.Lifecycle.{revoked-refused}
use quick_price.ApiKeys.Creation.{full_hash, Until, before, created-authenticates}
use quick_price.ApiKeys.Failures.{perform-err}

abbrev digits : String → String
digits raw =
    if str_eq raw "first"
    then "aaaaaaaaaaaaaaaaaaaaaaaaaaaaaaaaaaaaaaaaaaaaaaaaaaaaaaaaaaaaaaaa"
    else "bbbbbbbbbbbbbbbbbbbbbbbbbbbbbbbbbbbbbbbbbbbbbbbbbbbbbbbbbbbbbbbb"

-- texts with nothing to strip or to put in lower case
abbrev plain : Texts
plain = record { strip = λ s. s; lower = λ s. s; sha256_hex = digits }

plain-Laws : Laws plain
plain-Laws = record { strip_twice = λ s. refl; plain_hash = λ h p. refl }

abbrev first : Key
first = record {
  key_id = "1";
  name = "first";
  key_hash = "sha256:aaaaaaaaaaaaaaaaaaaaaaaaaaaaaaaaaaaaaaaaaaaaaaaaaaaaaaaaaaaaaaaa";
  key_hint = none;
  created_at = 10;
  updated_at = 10;
  expires_at = none;
  revoked_at = none;
  origin = "generated";
}

abbrev second : Key
second = record {
  key_id = "2";
  name = "second";
  key_hash = "sha256:bbbbbbbbbbbbbbbbbbbbbbbbbbbbbbbbbbbbbbbbbbbbbbbbbbbbbbbbbbbbbbbb";
  key_hint = some "second...cond";
  created_at = 60;
  updated_at = 60;
  expires_at = none;
  revoked_at = none;
  origin = "generated";
}

abbrev one_key : Manager
one_key = record { keys = first ∷ []; is_available = true }

abbrev revoked : Key
revoked = record first { revoked_at = some 50; updated_at = 50 }

abbrev none_active : Manager
none_active = record { keys = revoked ∷ []; is_available = true }

revokes : revoke plain one_key "1" 50 none ≡ (none_active, ok (revoked ∷ []))
unfolding revoke
revokes = refl

abbrev make_second : Call
make_second = creating "2" 60 "second" "second" none none

generates : generated plain "2" 60 "second" "second" none ≡ ok (second ∷ [])
unfolding generated
generates = refl

other_id : first.key_id ≢ second.key_id
other_id = not_eq "1" "2" refl

one_key-IsTable : IsTable plain one_key.keys
one_key-IsTable = ((tt, tt), ((refl, (unfold is_key_hash in refl)), tt))

second-NewIds :
    (keys : List Key)
    → All (λ k. k.key_id ≢ second.key_id) keys
    → (made : List Key) → generated plain "2" 60 "second" "second" none ≡ ok made
    → NewIds keys made
second-NewIds keys new made e = subst (NewIds keys) (ok-eq (sym generates ∙ e)) (new, tt, tt)

makes-Fresh : FreshRun plain plain-Laws none_active (make_second ∷ [])
makes-Fresh = (second-NewIds (revoked ∷ []) (other_id, tt), tt)

revoked-refused_example :
    authenticate_digest (run plain none_active (make_second ∷ [])) revoked.key_hash 70 ≡ none
revoked-refused_example =
    revoked-refused plain plain-Laws one_key none_active "1" 50 none revoked (make_second ∷ []) 70
      one_key-IsTable revokes makes-Fresh

abbrev two_keys : Manager
two_keys = record { keys = first ∷ second ∷ []; is_available = true }

creates : create plain one_key "2" 60 "second" "second" none none ≡ (two_keys, ok (second ∷ []))
unfolding create is_before
creates = refl

created-authenticates_example :
    (k : Key) × (second ∷ [] ≡ k ∷ [])
    × ((k.key_hash ≡ full_hash plain plain-Laws "second")
        × Until plain plain-Laws none k.expires_at
        × (k.revoked_at ≡ none))
    × ((c : String) (t : ℕ)
        → authenticate_digest two_keys c t ≡ (
            if str_eq c (full_hash plain plain-Laws "second")
            then before plain plain-Laws k.expires_at t k
            else authenticate_digest one_key c t))
created-authenticates_example =
    created-authenticates plain plain-Laws one_key two_keys "2" 60 "second" "second" none none
      (second ∷ []) one_key-IsTable (second-NewIds (first ∷ []) (other_id, tt))
      (unfold is_key_hash in refl) creates

not_stored :
    (perform plain one_key (creating "2" 60 "second" "second" none (some 5))).1 ≡ err (failed 5)
unfolding perform
not_stored = refl

perform-err_example :
    (perform plain one_key (creating "2" 60 "second" "second" none (some 5))).0 ≡ one_key
perform-err_example =
    perform-err plain one_key (creating "2" 60 "second" "second" none (some 5)) (failed 5)
      not_stored
