-- ===== src/Node/Witnesses.antt =====
-- core/Node.go: the theorems at a node with one topic.
use majula.Prelude.{ℕ, String, [], ◌∷◌, arith, eq_iff}
use majula.Prelude.Dict.{lookup}
use majula.Node.{Node, topic_init, remove_client}
use majula.Node.Topics.{IsAnnounced, IsFree, announced, remove_client-IsAnnounced}

abbrev node : Node ℕ
node = record {
  id = "n";
  message_version_counter = 1;
  my_subs = ("t", ("c", 7) ∷ []) ∷ [];
  total_subs = ("t", "m" ∷ "o" ∷ []) ∷ [];
  rpc_funcs = [];
  client_ids = "c" ∷ [];
  flood = topic_init "t" 0 ∷ [];
}

node-IsAnnounced : IsAnnounced node
unfolding announced lookup
node-IsAnnounced topic = ground (arith, eq_iff "t" topic)

remove_client-IsAnnounced_example :
    IsAnnounced (remove_client "c" node)
    × ((topic : String) → IsFree "c" topic (remove_client "c" node))
remove_client-IsAnnounced_example = remove_client-IsAnnounced "c" node node-IsAnnounced
