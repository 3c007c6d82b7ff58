-- ===== src/Base/Text.antt =====
-- Texts.
use Prim.Native.Nat.{Ordering}
use Prim.Native.String.{String, compare}
use mathlib.Core.Bool.{Bool, true}
use mathlib.Core.Path.{◌≡◌, refl, ap}
use mathlib.Core.Logic.{◌↔◌}
use text.Mathlib.Text.{is_eq}
use text.Mathlib.TextEquality.{path_by_compare}
use text.Mathlib.TextPositions.{compare_refl}

-- `s == t`, with no normalisation
abbrev pub same_text : String → String → Bool
same_text s t = is_eq (compare s t)

is_eq_lem : (o : Ordering) → is_eq o ≡ true → o ≡ Ordering.eq
is_eq_lem Ordering.lt h = cc
is_eq_lem Ordering.eq h = refl
is_eq_lem Ordering.gt h = cc

pub same_text-eq : (s t : String) → (same_text s t ≡ true) ↔ (s ≡ t)
same_text-eq s t =
    (λ h. path_by_compare s t (is_eq_lem (compare s t) h), λ e. rw e (ap is_eq (compare_refl t)))
