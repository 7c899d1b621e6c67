-- ===== src/Mesh/Topic.antt =====
-- core/Topic.go: the topic and the payload in the data of a published message.
pub mod Calls
pub mod Delivery
use Prim.Native.Char.{Char, code}
use Prim.Native.String.{String, [], ◌∷◌}
use majula.Prelude.{Option, none, some, Bool, true, false, if◌then◌else◌, ◌==◌}
use mathlib.Core.Option

-- Whether a character is the separator '|'.
unfoldable pub is_bar : Char → Bool
is_bar c = code c == 124

unfoldable pub parse_topic_message : String → Option (String × String)
parse_topic_message [] = none
parse_topic_message (c ∷ s) =
    let rest = parse_topic_message s in
    if is_bar c then some ("", s) else Option.map (λ parts. (c ∷ parts.0, parts.1)) rest

unfoldable pub has_bar : String → Bool
has_bar [] = false
has_bar (c ∷ s) = let rest = has_bar s in if is_bar c then true else rest
