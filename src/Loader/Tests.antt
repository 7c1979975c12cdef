-- ===== src/Loader/Tests.antt =====
-- A workload with one test procedure: a search task for two numbers of clients, and a `parallel` element
-- that its bulk task completes.
use solr_benchmark.Prelude.{ℕ, ◌≡◌, refl, String, true, false, none, some, List, [], ◌∷◌, All}
use solr_benchmark.Prelude.Dict.{get}
use solr_benchmark.Result.{ok, raise, workload_syntax_error}
use solr_benchmark.Workload.{Task, single, parallel}
use solr_benchmark.Loader.{
  simple, described, TaskSpec, one_tag, no_defaults, parse_task, parse_operation,
}
use solr_benchmark.Loader.Procedures.{
  ParallelSpec, parse_parallel, clients_list, parallel_spec, clients_name,
}
use solr_benchmark.Loader.Creation.{TestProcedure, Procedures}
use solr_benchmark.Loader.Rules.{IsWellFormed}
use solr_benchmark.Loader.Parallels.{IsRamped, IsCompletedBy, parse_parallel_lem}

abbrev search_spec : TaskSpec
search_spec = record {
  operation = some (simple "search");
  name = none;
  tags = one_tag "read";
  schedule = none;
  clients = none;
  warmup_iterations = none;
  iterations = none;
  warmup_time_period = some 60;
  time_period = some 300;
  ramp_up_time_period = none;
  ramp_down_time_period = none;
}

abbrev bulk_spec : TaskSpec
bulk_spec = record search_spec {
  operation = some (described (some "bulk") (some "index"));
  clients = some 8;
}

abbrev side_by_side : ParallelSpec
side_by_side = record {
  tasks = some (bulk_spec ∷ search_spec ∷ []);
  clients = none;
  defaults = record no_defaults { ramp_up_time_period = some 30; completed_by_name = some "index" };
}

abbrev bulk_task : Task
bulk_task = record {
  name = "index";
  operation = record { name = "index"; op_type = "bulk" };
  tags = "read" ∷ [];
  warmup_iterations = none;
  iterations = none;
  warmup_time_period = some 60;
  time_period = some 300;
  ramp_up_time_period = some 30;
  ramp_down_time_period = none;
  clients = 8;
  completes_parent = true;
  schedule = none;
}

abbrev search_task : Task
search_task = record bulk_task {
  name = "search";
  operation = record { name = "search"; op_type = "search" };
  clients = 1;
  completes_parent = false;
}

parsed_parallel : parse_parallel side_by_side [] ≡ ok (parallel (bulk_task ∷ search_task ∷ []) none)
unfolding parse_parallel parse_operation get
parsed_parallel = refl

parse_parallel_lem_example :
    (tasks : List Task) × (parallel (bulk_task ∷ search_task ∷ []) none ≡ parallel tasks none)
    × All IsWellFormed tasks
    × All (IsRamped side_by_side.defaults) tasks
    × IsCompletedBy (some "index") tasks
parse_parallel_lem_example = parse_parallel_lem side_by_side [] parsed_parallel

name_for_clients : clients_name "append" 16 ≡ "append_16_clients"
name_for_clients = refl

-- A ramp that is longer than the warm-up period is refused.
long_ramp :
    parse_task (record search_spec { ramp_up_time_period = some 90 }) [] no_defaults
    ≡ raise workload_syntax_error
unfolding parse_task parse_operation get
long_ramp = refl

abbrev workload : Procedures
workload = record {
  schedule = some (clients_list (1 ∷ 16 ∷ []) search_spec ∷ parallel_spec side_by_side ∷ []);
  test_procedure = none;
  test_procedures = none;
}

abbrev lone_task : String → ℕ → Task
lone_task name clients = record search_task {
  name = name;
  clients = clients;
  ramp_up_time_period = none;
}

abbrev loaded : List TestProcedure
loaded =
    record {
      name = "default";
      default = true;
      selected = true;
      auto_generated = true;
      schedule =
          single (lone_task "default_1_clients" 1)
          ∷ single (lone_task "default_16_clients" 16)
          ∷ parallel (bulk_task ∷ search_task ∷ []) none
          ∷ [];
    }
    ∷ []
