-- ===== src/World/Ends.antt =====
-- What holds of the value and the world after a call that returns. The exception of a call that
-- does not return is named too.
use zk_arche_compare.Base.{◌≡◌, Result, ok, raised, Error}
use zk_arche_compare.World.{World, Io, continue}

abbrev pub Ends {ℓ} : {A : Type ℓ} → Error → (A → World → Type 0) → Result A → World → Type 0
Ends x P (ok a) w = P a w
Ends x P (raised e) w = e ≡ x

module _ {ℓ} {A B : Type ℓ} (x : Error) (P : A → World → Type 0) (Q : B → World → Type 0) where
  pub Ends-continue :
      (r : Result A) (f : A → Io B) (w : World)
      → Ends x P r w
      → ((a : A) → P a w → Ends x Q (f a w).0 (f a w).1)
      → Ends x Q (continue r f w).0 (continue r f w).1
  Ends-continue (ok a) f w h k = k a h
  Ends-continue (raised e) f w h k = h

module _ {ℓ} {A : Type ℓ} (x : Error) (P Q : A → World → Type 0) where
  pub Ends-weaken :
      (r : Result A) (w : World) → ((a : A) → P a w → Q a w) → Ends x P r w → Ends x Q r w
  Ends-weaken (ok a) w k h = k a h
  Ends-weaken (raised e) w k h = h
