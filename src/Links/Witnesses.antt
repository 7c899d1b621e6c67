-- ===== src/Links/Witnesses.antt =====
-- core/Node.go: the theorems at a node that knows one link.
use majula.Prelude.{ℕ, some, [], ◌∷◌}
use majula.Prelude.Int.{pos}
use majula.Links.{Link, LinkSet, handle_heartbeat}
use majula.Links.Newer.{IsNewer, handle_heartbeat-IsNewer}

abbrev link : ℕ → Link
link version = record {
  source = "a";
  target = "b";
  cost = pos 3;
  version = pos version;
  channel = "x";
  last_update_time = 5;
}

abbrev links : ℕ → LinkSet
links version = ("a", ("b", link version) ∷ []) ∷ []

handle_heartbeat-IsNewer_example :
    IsNewer (links 4) (handle_heartbeat 9 "b" (some (links 6)) ([], links 4)).1
handle_heartbeat-IsNewer_example = handle_heartbeat-IsNewer 9 "b" (some (links 6)) [] (links 4)
