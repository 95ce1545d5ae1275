-- ===== src/World/Live.antt =====
-- The processes that were started and not yet seen to end: what a run of the harness may leak.
use zk_arche_compare.Base.{ℕ, ◌≡◌, List, [], ◌∷◌, arith, ◌==◌, if◌then◌else◌}
use zk_arche_compare.World.{Event, spawned, terminated, exited, gone, killed}

abbrev pub erase : ℕ → List ℕ → List ℕ
erase p [] = []
erase p (q ∷ qs) = let rest = erase p qs in if p == q then qs else q ∷ rest

abbrev pub live_after : Event → List ℕ → List ℕ
live_after (spawned p b args) ps = p ∷ ps
live_after (terminated p) ps = ps
live_after (exited p) ps = erase p ps
live_after (gone p) ps = erase p ps
live_after (killed p) ps = erase p ps

abbrev pub live : List Event → List ℕ
live [] = []
live (e ∷ log) = live_after e (live log)

pub erase-head : (p : ℕ) (ps : List ℕ) → erase p (p ∷ ps) ≡ ps
erase-head p ps = ground arith
