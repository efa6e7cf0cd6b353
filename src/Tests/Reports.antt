-- ===== src/Tests/Reports.antt =====
-- Concrete reports, and the theorems on them.
use nexo_plugin_email.Base.{none, some, [], ◌∷◌, ◌≡◌, refl, codes, length, filter_by, All, ◌++◌}
use nexo_plugin_email.BounceStore.Summary.Classes.{is_labelled, class_of, by_instance_lem}
use nexo_plugin_email.BounceStore.Summary.Listed.{ListsTop, summary_lem}
use nexo_plugin_email.BounceStore.Summary.Totals.{total_of}
use nexo_plugin_email.BounceStore.Summary.{is_selected, saturated, by_instance, summary}
use nexo_plugin_email.BounceStore.{BounceTable, classification_label}
use nexo_plugin_email.Dsn.{permanent}
use nexo_plugin_email.Health.{default_health}
use nexo_plugin_email.Tests.Stores.{bounces}
use nexo_plugin_email.Tool.Reports.{health_report, run_health, run_bounces_summary}

abbrev more_bounces : BounceTable
more_bounces =
    bounces
    ++ (
      (codes "ops", codes "bob@y.com"),
      record {
        classification = codes "permanent";
        status_code = none;
        action = none;
        last_seen = 4;
        count = 7;
      },
    )
      ∷ []

by_instance_lem_example :
    (class_of permanent (codes "ops") (by_instance none more_bounces)
      ≡ length (
          filter_by
            (is_labelled (codes "ops") (classification_label permanent))
            (filter_by (is_selected none) more_bounces)))
    × (total_of (codes "ops") (by_instance none more_bounces)
        ≡ saturated (
            length (
              filter_by
                (is_selected (some (codes "ops")))
                (filter_by (is_selected none) more_bounces))))
by_instance_lem_example = by_instance_lem none permanent (codes "ops") more_bounces

summary_lem_example : All (ListsTop 1 more_bounces) (summary (some (codes "ops")) 1 more_bounces)
summary_lem_example = summary_lem (some (codes "ops")) 1 more_bounces

summarised :
    run_bounces_summary (some more_bounces) none (some 1)
    ≡ some (
      record {
        instance_id = codes "ops";
        total_rows = 2;
        permanent_rows = 2;
        transient_rows = 0;
        unknown_rows = 0;
        top_recipients =
            record {
              recipient = codes "bob@y.com";
              classification = codes "permanent";
              status_code = none;
              action = none;
              last_seen = 4;
              count = 7;
            }
            ∷ [];
      }
          ∷ [],
      1,
    )
unfolding run_bounces_summary
summarised = refl

healthy : run_health ((codes "ops", default_health) ∷ (codes "ads", default_health) ∷ []) none ≡ (
  health_report (codes "ads", default_health) ∷ health_report (codes "ops", default_health) ∷ [],
  2,
)
unfolding run_health
healthy = refl
