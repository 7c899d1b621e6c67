-- ===== src/Mesh/Topic/Calls.antt =====
-- core/Node.go: the callbacks that a topic's message starts.
use mathlib.Core.List.{append_assoc}
use majula.Prelude.{◌≡◌, refl, ap, sym, ◌∙◌, String, List, [], ◌∷◌, ◌++◌}
use majula.Prelude.Dict.{Dict, get_or}
use majula.Mesh.{Router, Task, callback, start}
use majula.Mesh.Publish.{call_subs, start_callbacks}

module _ {ℓ} {C : Type ℓ} where
  abbrev pub subs_of : String → Router C → Dict C
  subs_of topic r = get_or [] topic r.my_subs

  -- A callback of each subscriber, the newest first.
  unfoldable pub calls_of : Dict C → String → String → String → List (Task C)
  calls_of [] topic from payload = []
  calls_of ((client, cb) ∷ subs) topic from payload =
      calls_of subs topic from payload ++ callback cb topic from payload ∷ []

  start_callbacks_lem :
      (subs : Dict C) (topic from payload : String) (r : Router C)
      → start_callbacks subs topic from payload r
        ≡ record r { tasks = calls_of subs topic from payload ++ r.tasks }
  unfolding start_callbacks calls_of
  start_callbacks_lem [] topic from payload r = refl
  start_callbacks_lem ((client, cb) ∷ subs) topic from payload r =
      start_callbacks_lem subs topic from payload (start (callback cb topic from payload) r)
      ∙ ap (λ ts. record r { tasks = ts })
          (sym (
            append_assoc (calls_of subs topic from payload) (callback cb topic from payload ∷ [])
              r.tasks))

  pub call_subs_lem :
      (topic from payload : String) (r : Router C)
      → call_subs topic from payload r
        ≡ record r { tasks = calls_of (subs_of topic r) topic from payload ++ r.tasks }
  unfolding call_subs
  call_subs_lem topic from payload r = start_callbacks_lem (subs_of topic r) topic from payload r
