-- ===== src/Links.antt =====
-- core/Link.go and the link set of core/Node.go: what a node knows of the links between nodes. Times
-- are nanoseconds, and a method reads the clock once.
pub mod Newer
mod Witnesses
use majula.Prelude.{
  ℕ, ◌+◌, String, Option, none, some, List, [], ◌∷◌, Bool, true, false, if◌then◌else◌, ltb, ◌==◌,
  length,
}
use majula.Prelude.Int.{ℤ, ltb_ℤ, eq_ℤ}
use majula.Prelude.Dict.{Dict, lookup, insert, delete, get_or}

pub record Link : Type 0 where
  pub source : String
  pub target : String
  pub cost : ℤ
  pub version : ℤ
  pub channel : String
  pub last_update_time : ℕ

abbrev pub LinkSet : Type 0
LinkSet = Dict (Dict Link)

abbrev set_cost : ℤ → Link → Link
set_cost cost link = record link { cost = cost }

abbrev set_last_update_time : ℕ → Link → Link
set_last_update_time now link = record link { last_update_time = now }

-- More than ten seconds without an update.
unfoldable check_out_of_time : ℕ → Link → Bool
check_out_of_time now link = ltb (link.last_update_time + 10000000000) now

-- The link that stays: the received one, where it is new or of a higher version.
unfoldable pub fresher : ℕ → Link → Option Link → Link
fresher now link none = set_last_update_time now link
fresher now link (some old) =
    if ltb_ℤ old.version link.version
    then set_last_update_time now link
    else set_last_update_time now old

unfoldable pub merge_link : ℕ → String → String → Link → LinkSet → LinkSet
merge_link now source target link set =
    let links = get_or [] source set in
    insert source (insert target (fresher now link (lookup target links)) links) set

-- The two loops over what a neighbour knows.
unfoldable pub merge_links : ℕ → String → Dict Link → LinkSet → LinkSet
merge_links now source [] set = set
merge_links now source ((target, link) ∷ links) set =
    merge_links now source links (merge_link now source target link set)

unfoldable pub add_source : String → LinkSet → LinkSet
add_source source set = elim (lookup source set) [ none ↦ insert source [] set | some m ↦ set ]

unfoldable pub merge_link_set : ℕ → LinkSet → LinkSet → LinkSet
merge_link_set now [] set = set
merge_link_set now ((source, links) ∷ received) set =
    merge_link_set now received (merge_links now source links (add_source source set))

pub data NodeStatus : Type 0 where
  active inactive : NodeStatus

pub record NodePeer : Type 0 where
  pub last_active_time : ℕ
  pub status : NodeStatus

-- `none` is a link set that cannot be decoded.
unfoldable pub handle_heartbeat :
    ℕ → String → Option LinkSet → Dict NodePeer × LinkSet → Dict NodePeer × LinkSet
handle_heartbeat now from none (peers, set) =
    (insert from (record { last_active_time = now; status = active }) peers, set)
handle_heartbeat now from (some received) (peers, set) = (
  insert from (record { last_active_time = now; status = active }) peers,
  merge_link_set now received set,
)

-- The Boolean is false where the source returns an error.
unfoldable update_link_cost : String → String → ℤ → LinkSet → LinkSet × Bool
update_link_cost node peer cost set = elim (lookup node set) [
  | none ↦ (set, false)
  | some links ↦ elim (lookup peer links) [
    | none ↦ (set, false)
    | some link ↦ (insert node (insert peer (set_cost cost link) links) set, true)
  ]
]

-- The link that stays for a report of the channel.
unfoldable reported : ℕ → Link → Option Link → Link
reported now link none = set_last_update_time now link
reported now link (some old) =
    if eq_ℤ old.cost link.cost
    then set_last_update_time now
        (if ltb_ℤ old.version link.version then record old { version = link.version } else old)
    else set_last_update_time now link

unfoldable link_update_from_channel : ℕ → Link → LinkSet → LinkSet
link_update_from_channel now link set =
    let links = get_or [] link.source set in
    insert link.source (insert link.target (reported now link (lookup link.target links)) links) set

unfoldable fresh_links : ℕ → Dict Link → Dict Link
fresh_links now [] = []
fresh_links now ((target, link) ∷ links) =
    let rest = fresh_links now links in
    if check_out_of_time now link then rest else (target, link) ∷ rest

-- Without another goroutine between the search and the removal. A source that loses no link stays,
-- one that loses its last is removed.
unfoldable check_out_of_date_links : ℕ → LinkSet → LinkSet
check_out_of_date_links now [] = []
check_out_of_date_links now ((source, links) ∷ set) =
    let rest = check_out_of_date_links now set in
    let left = fresh_links now links in
    if length left == length links
    then (source, links) ∷ rest
    else if length left == 0
    then rest
    else (source, left) ∷ rest
