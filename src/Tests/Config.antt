-- ===== src/Tests/Config.antt =====
-- Concrete inputs for the theorems on the configuration.
use mathlib.Core.List.{Permᴰ, ◌++◌}
use tektoncd_pruner.Prelude.{pos, true, false, none, some, [], ◌∷◌, ◌≡◌, refl, arith, ◌==◌}
use tektoncd_pruner.Go.Dict.{get, find}
use tektoncd_pruner.Kube.Object.{ObjectMeta}
use tektoncd_pruner.Config.Spec.{
  SelectorSpec, ResourceSpec, NamespaceSpec, GlobalConfig, empty_config, level_namespace,
  level_resource, ttl_seconds, failed_limit, resource_pipeline_run,
}
use tektoncd_pruner.Config.Select.{all_match, find_by_name, find_by_selector, find_in_specs}
use tektoncd_pruner.Config.Level.{get_enforced_config_level}
use tektoncd_pruner.Config.Field.{get_resource_field_data}
use tektoncd_pruner.Config.Helper.{get_resource_name, get_resource_selectors}
use tektoncd_pruner.Config.Reference.{first_value, places_at}
use tektoncd_pruner.Config.Resolved.{get_resource_field_data-eq-first_value}
use tektoncd_pruner.Config.EntryOrder.{lookup_ignores_entry_order}
use tektoncd_pruner.Config.Groups.{group_failed_limit_ignored, group_matches}
use tektoncd_pruner.Config.Named.{named_group_lost, with_ttl}
use tektoncd_pruner.Tests.Fixture.{meta_of}

abbrev team : SelectorSpec
team = record { match_labels = some (("team", "a") ∷ []); match_annotations = none }

-- A group by selector, with a limit of failed runs and none of successful ones.
abbrev team_group : ResourceSpec
team_group = record {
  name = "";
  selector = team ∷ [];
  config = record empty_config {
    failed_history_limit = some (pos 3);
    history_limit = some (pos 9);
  };
}

abbrev named_group : ResourceSpec
named_group = record {
  name = "build";
  selector = [];
  config = record empty_config {
    ttl_seconds_after_finished = some (pos 60);
    enforced_config_level = some level_namespace;
  };
}

abbrev listed : NamespaceSpec
listed = record {
  config = record empty_config { ttl_seconds_after_finished = some (pos 300) };
  pipeline_runs = named_group ∷ team_group ∷ [];
  task_runs = [];
}

abbrev global : GlobalConfig
global = record { config = empty_config; namespaces = some (("ns", listed) ∷ []) }

abbrev labelled : ObjectMeta
labelled = record (meta_of "a" 1) { labels = some (("tekton.dev/pipeline", "build") ∷ []) }

get_resource_field_data-eq-first_value_example :
    (get_resource_field_data global "ns" "build" team resource_pipeline_run failed_limit
      level_resource).0
    ≡ first_value (
        places_at level_resource global
          (get global.namespaces "ns")
          "build"
          team
          resource_pipeline_run
          failed_limit)
get_resource_field_data-eq-first_value_example =
    get_resource_field_data-eq-first_value global "ns" "build" team resource_pipeline_run
      failed_limit level_resource

abbrev two_labels : SelectorSpec
two_labels = record {
  match_labels = some (("team", "a") ∷ ("tier", "b") ∷ []);
  match_annotations = none;
}

abbrev two_labels_swapped : SelectorSpec
two_labels_swapped = record {
  match_labels = some (("tier", "b") ∷ ("team", "a") ∷ []);
  match_annotations = none;
}

lookup_ignores_entry_order_example :
    (get_enforced_config_level global "ns" "build" two_labels resource_pipeline_run
      ≡ get_enforced_config_level global "ns" "build" two_labels_swapped resource_pipeline_run)
    × (get_resource_field_data global "ns" "build" two_labels resource_pipeline_run ttl_seconds
          level_resource
        ≡ get_resource_field_data global "ns" "build" two_labels_swapped resource_pipeline_run
            ttl_seconds level_resource)
lookup_ignores_entry_order_example =
    lookup_ignores_entry_order two_labels two_labels_swapped tt (Permᴰ.swap refl refl) global "ns"
      "build" resource_pipeline_run ttl_seconds level_resource

named_group_misses : group_matches team named_group ≡ false
named_group_misses = refl

team_group_matches : group_matches team team_group ≡ true
unfolding all_match find
team_group_matches = refl

group_failed_limit_ignored_example :
    (find_by_selector team failed_limit ((named_group ∷ []) ++ team_group ∷ [])).0 ≡ some (pos 9)
group_failed_limit_ignored_example =
    group_failed_limit_ignored team (named_group ∷ []) team_group [] (named_group_misses, tt)
      team_group_matches refl

labelled_name : (get_resource_name labelled "tekton.dev/pipeline" == "") ≡ false
unfolding get_resource_name
labelled_name = refl

named_group_lost_example :
    (find_in_specs
        (get_resource_name labelled "tekton.dev/pipeline")
        (get_resource_selectors labelled)
        ttl_seconds
        (named_group ∷ [])
      ≡ find_by_name
          (get_resource_name labelled "tekton.dev/pipeline")
          ttl_seconds
          (named_group ∷ []))
    × (find_in_specs
          (get_resource_name (with_ttl labelled "60") "tekton.dev/pipeline")
          (get_resource_selectors (with_ttl labelled "60"))
          ttl_seconds
          (named_group ∷ [])
        ≡ (none, ""))
named_group_lost_example =
    named_group_lost labelled "tekton.dev/pipeline" "60" ttl_seconds (named_group ∷ []) refl
      (omega arith) labelled_name (refl, tt)

-- A run of the team with a note and a label of its own.
abbrev team_run : SelectorSpec
team_run = record {
  match_labels = some (("team", "a") ∷ ("tier", "b") ∷ []);
  match_annotations = some (("note", "x") ∷ []);
}

team_lacks : get team.match_labels "tier" ≡ none
unfolding find
team_lacks = refl

team_lacks_note : get team.match_annotations "note" ≡ none
unfolding find
team_lacks_note = refl
