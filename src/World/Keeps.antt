-- ===== src/World/Keeps.antt =====
-- What an action leaves as it was: a part of the world that reads the same after it.
use zk_arche_compare.Base.{◌≡◌, refl, ◌∙◌, Result, ok, raised, List, [], ◌∷◌, arith}
use zk_arche_compare.World.{World, Io, ◌>>=◌, continue, Event}
use zk_arche_compare.World.Files.{mkdirs, write_text, rmtree}
use zk_arche_compare.World.{FilePath}
use zk_arche_compare.Base.{Text}

abbrev pub Keeps {ℓ κ} : {X : Type ℓ} {A : Type κ} → (World → X) → Io A → Type ℓ
Keeps part m = (w : World) → part (m w).1 ≡ part w

module _ {ℓ κ} {X : Type ℓ} {A B : Type κ} (part : World → X) where
  Keeps-continue :
      (r : Result A) (f : A → Io B) → ((a : A) → Keeps part (f a)) → Keeps part (continue r f)
  Keeps-continue (ok a) f k w = k a w
  Keeps-continue (raised e) f k w = refl

  pub Keeps-bind :
      (m : Io A) (f : A → Io B) → Keeps part m → ((a : A) → Keeps part (f a)) → Keeps part (m >>= f)
  Keeps-bind m f km kf w = Keeps-continue (m w).0 f kf (m w).1 ∙ km w

abbrev pub log_of : World → List Event
log_of w = w.log

pub mkdirs-Keeps-log : (p : FilePath) → Keeps log_of (mkdirs p)
unfolding mkdirs
mkdirs-Keeps-log p w = ground arith

pub rmtree-Keeps-log : (p : FilePath) → Keeps log_of (rmtree p)
unfolding rmtree
rmtree-Keeps-log p w = ground arith

pub write_text-Keeps-log : (p : FilePath) (t : Text) → Keeps log_of (write_text p t)
unfolding write_text
write_text-Keeps-log [] t w = refl
write_text-Keeps-log (x ∷ p) t w = ground arith
