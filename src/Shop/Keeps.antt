-- ===== src/Shop/Keeps.antt =====
-- Methods that keep the books of Shop/Sound, and how they compose.
use electronic_shop.Base.{inl, inr, Option, none, some, arith}
use electronic_shop.Base.Exec.{AppError, Exec, Result-cases, or_raise, modify, ◌>>=◌}
use electronic_shop.Shop.Sound.{IsSound, Keeps}
use electronic_shop.Database.{Database}

abbrev pub Preserves : {A : Type 0} → Exec Database A → Type 0
Preserves m = (d : Database) → IsSound d → Keeps m d

pub bind-Preserves :
    {A B : Type 0} (m : Exec Database A) (f : A → Exec Database B)
    → Preserves m
    → ((a : A) → Preserves (f a))
    → Preserves (m >>= f)
bind-Preserves m f pm pf d h b e = elim (Result-cases (m d).0) [
  | inl (x, q) ↦ absurd (ground arith)
  | inr (a, q) ↦ rw (q, ◌>>=◌) (pf a (m d).1 (pm d h a q) b (ground arith))
]

pub or_raise-Preserves : {A : Type 0} (o : Option A) (x : AppError) → Preserves (or_raise o x)
or_raise-Preserves none x d h a e = h
or_raise-Preserves (some b) x d h a e = h

pub modify-Preserves :
    (f : Database → Database) → ((d : Database) → IsSound d → IsSound (f d)) → Preserves (modify f)
modify-Preserves f k d h a e = k d h
