-- ===== src/Leaderboard/Segments.antt =====
-- The segments of app/api/leaderboard.py: the labels of a run, and the filters that a request has
use why_combinator.Prelude.{
  String, Bool, true, false, ◌&&◌, Option, none, some, if◌then◌else◌, ◌==◌, text_has_eq,
}
use why_combinator.Prelude.Texts.{strip, is_empty}
use why_combinator.Platform.Json.{Fields, get, fields_of, text}
use why_combinator.Db.Models.{ConfiguredRun}

pub data GroupBy : Type 0 where
  team track : GroupBy

pub record SegmentLabels : Type 0 where
  pub team_label : Option String
  pub track_label : Option String

abbrev pub label_of : SegmentLabels → GroupBy → Option String
label_of labels team = labels.team_label
label_of labels track = labels.track_label

unfoldable pub normalize_segment_filter : Option String → Option String
normalize_segment_filter none = none
normalize_segment_filter (some value) = if is_empty (strip value) then none else some (strip value)

unfoldable pub segment_label : {Float : Type 0} → String → Fields Float → Option String
unfolding get normalize_segment_filter
segment_label key segmentation = elim (get key segmentation) [
  | none ↦ none
  | some value ↦ elim value [ text t ↦ normalize_segment_filter (some t) | _ ↦ none ]
]

unfoldable pub extract_segmentation_labels : {Float : Type 0} → ConfiguredRun Float → SegmentLabels
unfolding get fields_of segment_label
extract_segmentation_labels run = elim (fields_of (get "segmentation" run.config_snapshot)) [
  | none ↦ record { team_label = none; track_label = none }
  | some segmentation ↦ record {
    team_label = segment_label "team" segmentation;
    track_label = segment_label "track" segmentation;
  }
]

-- A filter that is not given fits every label.
abbrev pub fits : Option String → Option String → Bool
fits none label = true
fits (some wanted) none = false
fits (some wanted) (some label) = label == wanted

unfoldable pub run_matches_segmentation_filter :
    SegmentLabels → Option String → Option String → Bool
run_matches_segmentation_filter labels team_filter track_filter =
    fits team_filter labels.team_label && fits track_filter labels.track_label

abbrev pub group_key_of : SegmentLabels → Option GroupBy → Option String
group_key_of labels none = none
group_key_of labels (some by) = label_of labels by

-- The query parameters that both handlers have.
pub record Filters : Type 0 where
  pub team_filter : Option String
  pub track_filter : Option String
  pub group_by : Option GroupBy

abbrev pub matches : SegmentLabels → Filters → Bool
matches labels filters =
    run_matches_segmentation_filter labels (normalize_segment_filter filters.team_filter)
      (normalize_segment_filter filters.track_filter)
