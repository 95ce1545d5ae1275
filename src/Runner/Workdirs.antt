-- ===== src/Runner/Workdirs.antt =====
-- benchmarks/lib/runner.py: one working directory for each client.
pub mod Fresh
use zk_arche_compare.Base.{
  ℕ, zero, suc, ◌+◌, Bool, true, false, Option, none, some, List, [], ◌∷◌, ◌++◌, Text, Result, ok,
  raised, if◌then◌else◌,
}
use zk_arche_compare.Strings.{show_padded}
use zk_arche_compare.World.{FilePath, World, Io, act, pure, ◌>>=◌, ◌>>◌}
use zk_arche_compare.World.Files.{mkdirs, rmtree, copytree, exists, is_dir}

-- parent / f"{prefix}_{i:03d}"
unfoldable pub client_dir : FilePath → Text → ℕ → FilePath
unfolding show_padded
client_dir parent prefix i = (prefix ++ (b'_' ∷ show_padded 3 i)) ∷ parent

abbrev pub remove_old : FilePath → Io (Unit {0})
remove_old d w = if exists d w then rmtree d w else (ok tt, w)

-- `template is not None and template.is_dir()`
abbrev pub usable : Option FilePath → World → Option FilePath
usable none w = none
usable (some t) w = if is_dir t w then some t else none

abbrev pub fill : Option FilePath → FilePath → Io (Unit {0})
fill none d = mkdirs d
fill (some t) d = copytree t d

unfoldable pub stamp_one : Option FilePath → FilePath → Io (Unit {0})
stamp_one template d = do remove_old d; fill template d

-- `for i in range(n)`: the directories left, and the number of the next.
unfoldable pub stamp_loop : Option FilePath → FilePath → Text → ℕ → ℕ → Io (List FilePath)
stamp_loop template parent prefix zero i = pure []
stamp_loop template parent prefix (suc left) i = do
  stamp_one template (client_dir parent prefix i)
  out ← stamp_loop template parent prefix left (suc i)
  pure (client_dir parent prefix i ∷ out)

unfoldable pub stamp_workdirs : Option FilePath → FilePath → ℕ → Text → Io (List FilePath)
unfolding stamp_loop
stamp_workdirs template parent n prefix = do
  mkdirs parent
  use_copy ← (λ w. (ok (usable template w), w))
  stamp_loop use_copy parent prefix n 0
