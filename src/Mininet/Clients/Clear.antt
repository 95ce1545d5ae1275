-- ===== src/Mininet/Clients/Clear.antt =====
-- Directories can be made where no file is in the way, and making them adds no file.
use zk_arche_compare.Base.{
  ◌≡◌, refl, Bool, true, false, Option, none, some, [], ◌∷◌, Text, ok, arith, is_some, ◌||◌, ◌&&◌,
  not, if◌then◌else◌,
}
use zk_arche_compare.World.{FilePath, Node, dir, file, Files, World}
use zk_arche_compare.World.Files.{blocked, exists, is_dir, under, mkdirs, with_dirs}

abbrev pub holds_file : Option Node → Bool
holds_file o = elim o [ some (file t) ↦ true | some dir ↦ false | none ↦ false ]

abbrev pub is_file : Files → FilePath → Bool
is_file fs p = holds_file (fs p)

abbrev or_dir : Option Node → Bool → Option Node
or_dir o b = elim o [ some n ↦ some n | none ↦ if b then some dir else none ]

-- The trees have the same files, if not the same directories.
abbrev pub SameFiles : Files → Files → Type 0
SameFiles fs gs = (p : FilePath) → is_file gs p ≡ is_file fs p

with_dirs-node : (o : Option Node) (b : Bool) → holds_file (or_dir o b) ≡ holds_file o
with_dirs-node none true = refl
with_dirs-node none false = refl
with_dirs-node (some dir) b = refl
with_dirs-node (some (file t)) b = refl

abbrev under_file : Option Node → Bool → Bool
under_file o b = elim o [ some (file t) ↦ true | some dir ↦ b | none ↦ b ]

blocked-step : (o : Option Node) (b : Bool) → under_file o b ≡ (holds_file o || b)
blocked-step none b = refl
blocked-step (some dir) b = refl
blocked-step (some (file t)) b = refl

pub blocked-cons :
    (fs : Files) (x : Text) (p : FilePath) → blocked fs (x ∷ p) ≡ (is_file fs p || blocked fs p)
unfolding blocked
blocked-cons fs x p = blocked-step (fs p) (blocked fs p)

blocked_nil : (fs gs : Files) → blocked gs [] ≡ blocked fs []
unfolding blocked
blocked_nil fs gs = refl

pub blocked-SameFiles :
    (fs gs : Files) → SameFiles fs gs → (p : FilePath) → blocked gs p ≡ blocked fs p
blocked-SameFiles fs gs same [] = blocked_nil fs gs
blocked-SameFiles fs gs same (x ∷ p) =
    rw (blocked-cons gs x p, blocked-cons fs x p, same p, blocked-SameFiles fs gs same p) refl

abbrev holds_dir : Option Node → Bool
holds_dir o = elim o [ some dir ↦ true | some (file t) ↦ false | none ↦ false ]

file-dir : (o : Option Node) → holds_file o ≡ false → (is_some o && not (holds_dir o)) ≡ false
file-dir none h = refl
file-dir (some dir) h = refl
file-dir (some (file t)) h = ground arith

-- No file is in the way of the directory.
abbrev pub Open : FilePath → Files → Type 0
Open p fs = (is_file fs p ≡ false) × (blocked fs p ≡ false)

pub mkdirs-Open :
    (p : FilePath) (w : World)
    → Open p w.files
    → mkdirs p w ≡ (ok tt, record w { files = with_dirs p w.files })
unfolding mkdirs exists is_dir
mkdirs-Open p w (h, k) = rw (k, file-dir (w.files p) h) refl

pub with_dirs-SameFiles : (p : FilePath) (fs : Files) → SameFiles fs (with_dirs p fs)
with_dirs-SameFiles p fs q = with_dirs-node (fs q) (under q p)
