-- ===== src/Mininet/Lab/Keeps.antt =====
-- Which actions leave the network as it is: neither started nor stopped.
use zk_arche_compare.Base.{
  Failure, ℕ, zero, suc, ◌≡◌, refl, ◌∙◌, Bool, true, false, Result, ok, raised, List, [], ◌∷◌,
  Option, none, some, Text, length, if◌then◌else◌,
}
use zk_arche_compare.World.{Io}
use zk_arche_compare.Mininet.Lab.{
  Act, started, stopped, ran, opened, communicated, terminated, polled, killed, ran_local, slept,
  seeded, drew, Kit, Lab, M, continue, ◌>>=◌, each, pure, lift, files, act, when, perform, attempt,
  host_cmd, host_open, sleep, ignored, draw_uniform, draw_index, failed,
}

abbrev pub one_less : ℕ → ℕ
one_less zero = zero
one_less (suc n) = n

-- How many networks were started and not yet stopped; the newest act comes first.
unfoldable pub running : List Act → ℕ
running [] = 0
running (started ∷ acts) = suc (running acts)
running (stopped ∷ acts) = one_less (running acts)
running (ran h c ∷ acts) = running acts
running (opened p h c ∷ acts) = running acts
running (communicated p ∷ acts) = running acts
running (terminated p ∷ acts) = running acts
running (polled p ∷ acts) = running acts
running (killed p ∷ acts) = running acts
running (ran_local c d ∷ acts) = running acts
running (slept n ∷ acts) = running acts
running (seeded n ∷ acts) = running acts
running (drew ∷ acts) = running acts

unfoldable pub Keeps {ℓ} : {A : Type ℓ} → M A → Type 0
Keeps m = (lab : Lab) → running (m lab).1.acts ≡ running lab.acts

module _ {ℓ} {A B : Type ℓ} where
  Keeps-continue : (r : Result A) (f : A → M B) → ((a : A) → Keeps (f a)) → Keeps (continue r f)
  unfolding Keeps
  Keeps-continue (ok a) f k lab = k a lab
  Keeps-continue (raised e) f k lab = refl

  pub Keeps-bind : (m : M A) (f : A → M B) → Keeps m → ((a : A) → Keeps (f a)) → Keeps (m >>= f)
  unfolding Keeps
  Keeps-bind m f km kf lab = Keeps-continue (m lab).0 f kf (m lab).1 ∙ km lab

module _ {ℓ} {A : Type ℓ} where
  pub Keeps-pure : (a : A) → Keeps (pure a)
  unfolding Keeps
  Keeps-pure a lab = refl

  pub Keeps-lift : (r : Result A) → Keeps (lift r)
  unfolding Keeps
  Keeps-lift r lab = refl

  pub Keeps-files : (m : Io A) → Keeps (files m)
  unfolding Keeps
  Keeps-files m lab = refl

  pub Keeps-if : (b : Bool) (m n : M A) → Keeps m → Keeps n → Keeps (if b then m else n)
  Keeps-if true m n k l = k
  Keeps-if false m n k l = l

-- A test of the lab itself.
module _ {ℓ} {A : Type ℓ} where
  if_on :
      (b : Bool) (m n : M A) (lab : Lab)
      → Keeps m
      → Keeps n
      → running (if b then m lab else n lab).1.acts ≡ running lab.acts
  unfolding Keeps
  if_on true m n lab k l = k lab
  if_on false m n lab k l = l lab

  pub Keeps-test :
      (test : Lab → Bool) (m n : M A)
      → Keeps m
      → Keeps n
      → Keeps (λ lab. if test lab then m lab else n lab)
  unfolding Keeps
  Keeps-test test m n k l lab = if_on (test lab) m n lab k l

pub Keeps-when : (b : Bool) (m : M (Unit {0})) → Keeps m → Keeps (when b m)
Keeps-when b m k = Keeps-if b m (pure tt) k (Keeps-pure tt)

-- Acts other than the start and the stop of the network.
module _ (kit : Kit) where
  pub draw_uniform-Keeps : (x y : kit.fl.F) → Keeps (draw_uniform kit x y)
  unfolding draw_uniform running Keeps
  draw_uniform-Keeps x y lab = refl

  pub draw_index-Keeps : (pick : Lab → ℕ) → Keeps (draw_index kit pick)
  unfolding draw_index running Keeps
  draw_index-Keeps pick lab = refl

  pub sleep-Keeps : (ns : ℕ) → Keeps (act (sleep kit ns))
  unfolding sleep perform running Keeps
  sleep-Keeps ns lab = refl

  -- Any act that neither starts nor stops.
  pub attempt-Keeps :
      (a : Act) → ((acts : List Act) → running (a ∷ acts) ≡ running acts) → Keeps (attempt kit a)
  unfolding attempt perform Keeps
  attempt-Keeps a h lab = h lab.acts

  pub ignored-Keeps : (m : M (Unit {0})) → Keeps m → Keeps (act (ignored m))
  unfolding Keeps
  ignored-Keeps m k lab = k lab

  failed_then :
      {A : Type 0} (o : Option Failure) (a : A) → Keeps (continue (failed kit o) (λ _. pure a))
  unfolding Keeps
  failed_then none a lab = refl
  failed_then (some e) a lab = refl

  -- The same, with an answer that the lab gives before the act.
  pub answer-Keeps :
      {A : Type 0} (a : Act) (answer : Lab → A)
      → ((acts : List Act) → running (a ∷ acts) ≡ running acts)
      → Keeps (λ lab. (attempt kit a >>= λ _. pure (answer lab)) lab)
  unfolding attempt perform Keeps
  answer-Keeps a answer h lab = failed_then (kit.fails lab a) (answer lab) _ ∙ h lab.acts

  pub host_cmd-Keeps : (host command : Text) → Keeps (host_cmd kit host command)
  unfolding host_cmd attempt perform running Keeps
  host_cmd-Keeps host command lab =
      failed_then (kit.fails lab (ran host command)) (kit.answers lab host command) _

  pub host_open-Keeps : (host command : Text) → Keeps (host_open kit host command)
  unfolding host_open attempt perform running Keeps
  host_open-Keeps host command lab =
      failed_then (kit.fails lab (opened (length lab.acts) host command)) (length lab.acts) _

module _ {A B : Type 0} where
  pub Keeps-each : (f : A → M B) → ((a : A) → Keeps (f a)) → (xs : List A) → Keeps (each f xs)
  Keeps-each f k [] = Keeps-pure []
  Keeps-each f k (x ∷ xs) =
      Keeps-bind _ _ (k x) λ y. Keeps-bind _ _ (Keeps-each f k xs) λ ys. Keeps-pure (y ∷ ys)

pub ruleset keeps = (Keeps-bind, Keeps-pure, Keeps-lift, Keeps-files, Keeps-when)
