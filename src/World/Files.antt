-- ===== src/World/Files.antt =====
-- The calls of `pathlib` and `shutil` on the file tree.
pub mod Tree
use zk_arche_compare.Base.{
  ℕ, ◌≡◌, refl, Bool, true, false, ◌&&◌, ◌||◌, not, Option, none, some, List, [], ◌∷◌, Text,
  text_eq, text_eq_refl, text_eq_iff, os_error, ok, raised, arith, is_some, if◌then◌else◌,
}
use zk_arche_compare.World.{FilePath, Node, dir, file, Files, World, Io, Os}

unfoldable pub path_eq : FilePath → FilePath → Bool
path_eq [] [] = true
path_eq [] (y ∷ ys) = false
path_eq (x ∷ xs) [] = false
path_eq (x ∷ xs) (y ∷ ys) = text_eq x y && path_eq xs ys

-- `p.parent`
abbrev pub parent : FilePath → FilePath
parent [] = []
parent (x ∷ p) = p

-- `q` is `p` or lies below it.
unfoldable pub under : FilePath → FilePath → Bool
unfolding path_eq
under p [] = path_eq [] p
under p (x ∷ q) = path_eq (x ∷ q) p || under p q

-- Some proper ancestor of the path is a file.
unfoldable pub blocked : Files → FilePath → Bool
blocked fs [] = false
blocked fs (x ∷ p) = elim (fs p) [
  | some (file t) ↦ true
  | some dir ↦ blocked fs p
  | none ↦ blocked fs p
]

-- `p.exists()`, `p.is_dir()`
unfoldable pub exists : FilePath → World → Bool
exists p w = is_some (w.files p)

unfoldable pub is_dir : FilePath → World → Bool
is_dir p w = elim (w.files p) [ some dir ↦ true | some (file t) ↦ false | none ↦ false ]

abbrev pub with_dirs : FilePath → Files → Files
with_dirs p fs q = elim (fs q) [ some n ↦ some n | none ↦ if under q p then some dir else none ]

-- `p.mkdir(parents=True, exist_ok=True)`
unfoldable pub mkdirs : FilePath → Io (Unit {0})
unfolding is_dir exists blocked under
mkdirs p w =
    if blocked w.files p || (exists p w && not (is_dir p w))
    then (raised os_error, w)
    else (ok tt, record w { files = with_dirs p w.files })

-- `p.mkdir()`: the parent is a directory and the path is new
unfoldable pub mkdir : FilePath → Io (Unit {0})
unfolding is_dir exists under
mkdir [] w = (raised os_error, w)
mkdir (x ∷ p) w =
    if exists (x ∷ p) w || not (is_dir p w)
    then (raised os_error, w)
    else (ok tt, record w { files = with_dirs (x ∷ p) w.files })

abbrev pub without_tree : FilePath → Files → Files
without_tree p fs q = if under p q then none else fs q

-- `shutil.rmtree(p)`, for a path that is a directory
unfoldable pub rmtree : FilePath → Io (Unit {0})
unfolding is_dir under
rmtree p w =
    if is_dir p w
    then (ok tt, record w { files = without_tree p w.files })
    else (raised os_error, w)

-- The path below `from` that `q` would be if `to` were `from`.
unfoldable pub rebase : FilePath → FilePath → FilePath → FilePath
unfolding path_eq
rebase from to [] = from
rebase from to (x ∷ q) =
    let above = rebase from to q in if path_eq (x ∷ q) to then from else x ∷ above

abbrev pub with_copy : FilePath → FilePath → Files → Files
with_copy from to fs q = if under to q then fs (rebase from to q) else with_dirs to fs q

-- `shutil.copytree(from, to)`: the target is new
unfoldable pub copytree : FilePath → FilePath → Io (Unit {0})
unfolding is_dir exists under rebase
copytree from to w =
    if exists to w || not (is_dir from w)
    then (raised os_error, w)
    else (ok tt, record w { files = with_copy from to w.files })

abbrev pub with_file : FilePath → Text → Files → Files
with_file p t fs q = if path_eq q p then some (file t) else fs q

-- `p.open("w")` and a write of the whole text: the parent is a directory, the path is none
unfoldable pub write_text : FilePath → Text → Io (Unit {0})
unfolding is_dir exists path_eq
write_text [] t w = (raised os_error, w)
write_text (x ∷ p) t w =
    if is_dir (x ∷ p) w || not (is_dir p w)
    then (raised os_error, w)
    else (ok tt, record w { files = with_file (x ∷ p) t w.files })

pub path_eq_refl : (p : FilePath) → path_eq p p ≡ true
unfolding path_eq
path_eq_refl [] = refl
path_eq_refl (x ∷ p) = ground (arith, text_eq_refl x, path_eq_refl p)

pub under_refl : (p : FilePath) → under p p ≡ true
unfolding under
under_refl [] = refl
under_refl (x ∷ p) = ground (arith, text_eq_refl x, path_eq_refl p)
