-- ===== src/Resource/Samples.antt =====
-- A plug-in that polls twice, and the theorems about the life of a resource at it.
use heat.Prelude.{
  ℕ, Bool, true, [], ◌∷◌, Option, none, some, Text, codes, list_eq, nat_eq, member, All,
}
use heat.Dict.{Dict, lookup, has_key}
use heat.Template.Json.{Json, text, obj, field, end, returns}
use heat.Template.References.{get_item}
use heat.Resource.Requirements.{requirements}
use heat.Resource.Required.{in_dict, within, ref, requirements_sound, requirements_complete}
use heat.Resource.Difference.{update_template_diff}
use heat.Resource.Changed.{patched, update_template_diff-patched}
use heat.Prelude.{ℕ, zero, suc, false, ◌≡◌, refl}
use heat.Scheduler.Coroutine.{
  timed_out, task_error, resource_failure, Resumed, yields, stops, raises, Body,
}
use heat.Resource.Lifecycle.{
  init, create_action, delete_action, update_action, in_progress, failed, complete, State, settle,
  do_action, create, delete, settle_update, update,
}
use heat.Resource.Settled.{
  Runs, begun, resumed, thrown, CreateTells, create-Tells, later_end, update_interrupted,
}

program : Unit {0}
unfolding settle do_action create delete settle_update update
program = tt

poll : ℕ → Resumed ℕ
poll zero = stops
poll (suc n) = yields n

abbrev polling : Body ℕ
polling = record { first = yields 1; next = poll; throw = λ s x. raises x }

abbrev created : State
created = record { action = create_action; status = complete }

abbrev updating : State
updating = record { action = update_action; status = in_progress }

abbrev initial : State
initial = record { action = init; status = complete }

-- A handler that fails leaves the state FAILED; a second creation is refused.
create-failing :
    (settle {S = ℕ} create_action (raises (task_error 1)) created
      ≡ (record { action = create_action; status = failed }, raises resource_failure))
    × (create none polling created ≡ (created, raises resource_failure))
unfolding program
create-failing = (refl, refl)

created_run :
    Runs
      (settle create_action)
      polling
      (create none polling initial)
      (settle create_action (poll 1) (record { action = create_action; status = in_progress }))
unfolding program
created_run = resumed {s = 1} begun

create-Tells_example :
    CreateTells none
      (settle create_action (poll 1) (record { action = create_action; status = in_progress }))
create-Tells_example =
    create-Tells none polling
      (settle create_action (poll 1) (record { action = create_action; status = in_progress }))
      created_run

deleted_run : Runs (settle delete_action) polling (delete polling created) (delete polling created)
deleted_run = begun

interrupted_run :
    Runs
      (settle_update none)
      polling
      (update false false none polling created)
      (updating, raises timed_out)
unfolding program
interrupted_run = thrown {s = 1} timed_out begun

update_interrupted_example :
    (updating ≡ updating)
    × ((other_class same : Bool)
        → update other_class same none polling updating ≡ (updating, later_end other_class same))
update_interrupted_example =
    update_interrupted none none polling polling created updating timed_out refl interrupted_run

-- `{"Properties": {"volume": {"Ref": "volume"}}}`
abbrev server_snippet : Json
server_snippet = obj (
    field (codes "Properties")
      (obj (field (codes "volume") (obj (field (codes "Ref") (text (codes "volume")) end)) end))
      end)

abbrev two_resources : Dict Text Bool
two_resources = (codes "volume", true) ∷ (codes "server", true) ∷ []

server_requirements : requirements two_resources server_snippet ≡ returns (codes "volume" ∷ [])
unfolding lookup requirements get_item
server_requirements = refl

volume_strict : lookup (codes "volume") two_resources ≡ some true
unfolding lookup
volume_strict = refl

requirements_sound_example :
    All (λ target. has_key target two_resources ≡ true) (codes "volume" ∷ [])
requirements_sound_example =
    requirements_sound two_resources server_snippet (codes "volume" ∷ []) server_requirements

requirements_complete_example : member (codes "volume") (codes "volume" ∷ []) ≡ true
requirements_complete_example =
    requirements_complete two_resources server_snippet (codes "volume" ∷ []) (codes "volume")
      server_requirements volume_strict
      (in_dict (within refl (in_dict (within refl (in_dict ref)))))

-- The name of a property that is neither in the old nor in the new snippet stays away.
abbrev old_server : Dict ℕ ℕ
old_server = (1, 10) ∷ (2, 20) ∷ []

abbrev new_server : Dict ℕ ℕ
new_server = (1, 11) ∷ []

abbrev server_changes : Dict ℕ (Option ℕ)
server_changes = (2, none) ∷ (1, some 11) ∷ []

server_diff : update_template_diff (1 ∷ 2 ∷ []) new_server old_server ≡ some server_changes
unfolding lookup update_template_diff
server_diff = refl

update_template_diff-patched_example :
    (patched (lookup 2 server_changes) (lookup 2 old_server) ≡ lookup 2 new_server)
    × All (λ change. member change.0 (1 ∷ 2 ∷ []) ≡ true) server_changes
update_template_diff-patched_example =
    update_template_diff-patched (1 ∷ 2 ∷ []) new_server old_server server_changes 2 server_diff
