-- ===== src/Coordinator.antt =====
-- osbenchmark/worker_coordinator/worker_coordinator.py: `WorkerCoordinator` from the first join point
-- on. A call of the target, the telemetry, the post processors or the progress display is an effect
-- in the list that a method returns beside the new state. Time is in whole ticks of the clock.
pub mod Steps
pub mod Completion
pub mod Round
pub mod Advance
mod Tests
use solr_benchmark.Prelude.{
  ℕ, zero, suc, ◌+◌, ◌-◌, String, Bool, true, false, not, ◌&&◌, Option, none, some, List, [], ◌∷◌,
  ◌++◌, map, ltb, ◌==◌, if◌then◌else◌, length, get_elem?, filterb, all,
}
use solr_benchmark.Prelude.Dict.{Dict, get, put, has, nat_key}
use solr_benchmark.Result.{
  Result, ok, raise, key_error, index_error, assertion_error, raise_if, ◌>>=◌, ◌>>◌,
}
use solr_benchmark.Allocator.{JoinPoint, preceding_task_completes_parent}

-- A client's report of its progress: an amount in the unit '%' or 'GB'.
pub data ProgressUnit : Type 0 where
  percent gigabytes : ProgressUnit

pub record Progress : Type 0 where
  pub amount : ℕ
  pub unit : ProgressUnit

-- What the coordinator reads of a sample.
pub record Sample : Type 0 where
  pub client_id : ℕ
  pub task_progress : Option Progress

-- When a worker ended its task, by its own clock, and when the coordinator heard of it.
pub record Reached : Type 0 where
  pub worker_ended_task_at : ℕ
  pub master_received_msg_at : ℕ

pub data Effect : Type 0 where
  drive_at : ℕ → ℕ → Effect
  complete_current_task : ℕ → Effect
  on_task_finished : ℕ → Effect
  on_benchmark_complete : Effect
  on_benchmark_stop : Effect
  disable_feedback_scaling enable_feedback_scaling : Effect
  process_samples process_profile_samples : List Sample → Effect
  print_progress : List String → List Progress → Bool → Effect
  finish_progress : Effect

-- The options that the methods read. One second is `second` ticks.
pub record Options : Type 0 where
  pub redline_test : Bool
  pub test_mode_enabled : Bool
  pub quiet : Bool
  pub second : ℕ

-- `current_step` starts at -1, so the record has `join_points_passed`, which is `current_step + 1`.
pub record Coordinator : Type 0 where
  pub workers : ℕ
  pub clients_per_worker : Dict ℕ ℕ
  pub number_of_steps : ℕ
  pub tasks_per_join_point : List (List String)
  pub join_points_passed : ℕ
  pub currently_completed : ℕ
  pub workers_completed_current_step : Dict ℕ Reached
  pub complete_current_task_sent : Bool
  pub raw_samples : List Sample
  pub raw_profile_samples : List Sample
  pub most_recent_sample_per_client : Dict ℕ Sample
  pub metrics_store_open : Bool

abbrev pub Step : Type 0
Step = Result (Coordinator × List Effect)

-- `self.current_step == self.number_of_steps`
pub finished : Coordinator → Bool
finished c = c.join_points_passed == (c.number_of_steps + 1)

-- The loop over the samples of `update_samples`.
pub remember : List Sample → Dict ℕ Sample → Dict ℕ Sample
remember [] recent = recent
remember (s ∷ samples) recent = remember samples (put s.client_id s recent)

unfoldable pub update_samples : List Sample → Coordinator → Coordinator
unfolding remember
update_samples samples c =
    if ltb 0 (length samples)
    then record c {
      raw_samples = c.raw_samples ++ samples;
      most_recent_sample_per_client = remember samples c.most_recent_sample_per_client;
    }
    else c

unfoldable pub update_profile_samples : List Sample → Coordinator → Coordinator
update_profile_samples samples c =
    if ltb 0 (length samples)
    then record c { raw_profile_samples = c.raw_profile_samples ++ samples }
    else c

pub post_process_samples : Coordinator → Coordinator × List Effect
post_process_samples c = (
  record c { raw_samples = []; raw_profile_samples = [] },
  process_samples c.raw_samples
      ∷ (if ltb 0 (length c.raw_profile_samples)
          then process_profile_samples c.raw_profile_samples ∷ []
          else []),
)

abbrev pub progress_of : Dict ℕ Sample → List Progress
progress_of [] = []
progress_of ((_, s) ∷ recent) =
    let rest = progress_of recent in elim s.task_progress [ none ↦ rest | some p ↦ p ∷ rest ]

abbrev pub same_unit : ProgressUnit → ProgressUnit → Bool
same_unit percent percent = true
same_unit gigabytes gigabytes = true
same_unit _ _ = false

-- `len(units) == 1`
abbrev pub one_unit : List Progress → Bool
one_unit [] = false
one_unit (p ∷ ps) = all (λ q. same_unit p.unit q.unit) ps

abbrev pub or_none_reported : List Progress → List Progress
or_none_reported [] = record { amount = 0; unit = percent } ∷ []
or_none_reported (p ∷ ps) = p ∷ ps

abbrev pub message_for : Bool → List Progress → Option (List String) → Result (List Effect)
message_for task_finished progress none = raise index_error
message_for task_finished progress (some tasks) = do
  raise_if (not (one_unit progress)) assertion_error
  ok (
      print_progress tasks progress task_finished
      ∷ (if task_finished then finish_progress ∷ [] else []))

-- The averages and the text of the message are left to the display.
pub update_progress_message : Options → Bool → Coordinator → Result (List Effect)
update_progress_message o task_finished c =
    if not o.quiet && ltb 0 c.join_points_passed
    then message_for task_finished (or_none_reported (progress_of c.most_recent_sample_per_client))
        (get_elem? c.tasks_per_join_point (c.join_points_passed - 1))
    else ok []
