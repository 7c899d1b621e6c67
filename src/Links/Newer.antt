-- ===== src/Links/Newer.antt =====
-- core/Node.go: handleHeartbeat never loses a link and never goes back to an older version of one.
use majula.Prelude.{
  ℕ, ◌≡◌, refl, ◌∙◌, String, Option, none, some, [], ◌∷◌, if◌then◌else◌, str_eq, arith, eq_iff,
  Bool-cases, Option-cases, inl, inr,
}
use majula.Prelude.Int.{◌≤ℤ◌}
use majula.Prelude.Dict.{Dict, lookup, insert, get_or, lookup-insert}
use majula.Links.{
  Link, LinkSet, NodePeer, fresher, merge_link, merge_links, add_source, merge_link_set,
  handle_heartbeat,
}

-- What a set holds under a source and a target.
unfoldable pub link_at : String → String → LinkSet → Option Link
link_at source target set = lookup target (get_or [] source set)

-- Every link of the first set is in the second, in the same version or a newer one.
abbrev pub IsNewer : LinkSet → LinkSet → Type 0
IsNewer a b =
    (source target : String) (link : Link)
    → link_at source target a ≡ some link
    → (link' : Link) × (link_at source target b ≡ some link') × (link.version ≤ℤ link'.version)

IsNewer-refl : (a : LinkSet) → IsNewer a a
IsNewer-refl a s t l h = (l, h, omega arith)

IsNewer-trans : (a b c : LinkSet) → IsNewer a b → IsNewer b c → IsNewer a c
IsNewer-trans a b c p q s t l h =
    let (m, e, u) = p s t l h in let (n, f, v) = q s t m e in (n, f, omega arith)

link_at-merge_link :
    (now : ℕ) (s t source target : String) (link : Link) (set : LinkSet)
    → link_at source target (merge_link now s t link set) ≡ (
        if str_eq s source
        then (if str_eq t target
            then some (fresher now link (link_at s t set))
            else link_at s target set)
        else link_at source target set)
unfolding link_at merge_link get_or
link_at-merge_link now s t source target link set = ground (
  arith,
  lookup-insert s source
      (insert t (fresher now link (lookup t (get_or [] s set))) (get_or [] s set)) set,
  lookup-insert t target (fresher now link (lookup t (get_or [] s set))) (get_or [] s set),
)

fresher-newer : (now : ℕ) (link old : Link) → old.version ≤ℤ (fresher now link (some old)).version
unfolding fresher
fresher-newer now link old = ground arith

merge_link-IsNewer :
    (now : ℕ) (s t : String) (link : Link) (set : LinkSet)
    → IsNewer set (merge_link now s t link set)
merge_link-IsNewer now s t link set source target l h = elim (Bool-cases (str_eq s source)) [
  | inl a ↦ elim (Bool-cases (str_eq t target)) [
    | inl b ↦
        let here : link_at s t set ≡ some l = ground (arith, eq_iff s source, eq_iff t target) in
        (
          fresher now link (some l),
          link_at-merge_link now s t source target link set ∙ rw (a, b) (rw here refl),
          fresher-newer now link l,
        )
    | inr b ↦ (
      l,
      link_at-merge_link now s t source target link set
          ∙ rw (a, b) (ground (arith, eq_iff s source)),
      omega arith,
    )
  ]
  | inr a ↦ (l, link_at-merge_link now s t source target link set ∙ rw a h, omega arith)
]

merge_links-IsNewer :
    (now : ℕ) (s : String) (links : Dict Link) (set : LinkSet)
    → IsNewer set (merge_links now s links set)
unfolding merge_links
merge_links-IsNewer now s [] set = IsNewer-refl set
merge_links-IsNewer now s ((t, link) ∷ links) set =
    IsNewer-trans set (merge_link now s t link set) _ (merge_link-IsNewer now s t link set)
      (merge_links-IsNewer now s links (merge_link now s t link set))

add_source-IsNewer : (s : String) (set : LinkSet) → IsNewer set (add_source s set)
unfolding add_source link_at get_or
add_source-IsNewer s set source target l h = elim (Option-cases (lookup s set)) [
  | inl e ↦
      let no_links : Dict Link = [] in
      (l, ground (arith, eq_iff s source, lookup-insert s source no_links set), omega arith)
  | inr (m, e) ↦ (l, ground arith, omega arith)
]

merge_link_set-IsNewer :
    (now : ℕ) (received set : LinkSet) → IsNewer set (merge_link_set now received set)
unfolding merge_link_set
merge_link_set-IsNewer now [] set = IsNewer-refl set
merge_link_set-IsNewer now ((s, links) ∷ received) set =
    let added = add_source s set in
    let merged = merge_links now s links added in
    IsNewer-trans set merged _
      (IsNewer-trans set added merged (add_source-IsNewer s set)
        (merge_links-IsNewer now s links added))
      (merge_link_set-IsNewer now received merged)

-- Whatever a heartbeat carries, decoded or not, every link that the node knows stays, in the same
-- version or a newer one.
pub handle_heartbeat-IsNewer :
    (now : ℕ) (from : String) (received : Option LinkSet) (peers : Dict NodePeer) (set : LinkSet)
    → IsNewer set (handle_heartbeat now from received (peers, set)).1
unfolding handle_heartbeat
handle_heartbeat-IsNewer now from none peers set = IsNewer-refl set
handle_heartbeat-IsNewer now from (some received) peers set =
    merge_link_set-IsNewer now received set
