-- ===== src/Prelude/Texts.antt =====
-- Texts as keys.
use Prim.Native.String.{String}
use mathlib.Core.Path.{◌≡◌, refl}
use mathlib.Core.Bool.{Bool, true, false}
use text.Mathlib.Text.{◌==◌}
use text.Mathlib.TextEquality.{eq_iff}

pub not_eq : (s t : String) → (s == t) ≡ false → ¬ (s ≡ t)
not_eq s t h = λ p. absurd_bool ((eq_iff s t).1 p) h
  where
    absurd_bool : {b : Bool} → b ≡ true → b ≡ false → ⊥
    absurd_bool p q = cc

decide : (s t : String) (b : Bool) → (s == t) ≡ b → Dec (s ≡ t)
decide s t true h = yes ((eq_iff s t).0 h)
decide s t false h = no (not_eq s t h)

-- Equality of texts, decided by the native comparison.
unfoldable pub String-discrete : Discrete String
unfolding decide
String-discrete s t = decide s t (s == t) refl
