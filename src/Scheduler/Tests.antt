-- ===== src/Scheduler/Tests.antt =====
-- Four clients of a task that is to make 1000 documents a second, by bulks of 500.
use solr_benchmark.Prelude.{◌*◌, ◌≡◌, refl, none, some, List, arith, [], ◌∷◌}
use solr_benchmark.Prelude.Text.{codes}
use solr_benchmark.Prelude.Dict.{get, put}
use solr_benchmark.Result.{ok, raise, type_error, attribute_error, system_setup_error, ◌>>=◌}
use solr_benchmark.Scheduler.{
  SchedulerClass, class, delegating, deterministic_class, built_in, register_scheduler, function,
  unit_aware, poisson_class, is_legacy_scheduler, is_simple_scheduler,
}
use solr_benchmark.Scheduler.Target.{
  Target, text, number, absent, target_throughput, ops_per_second,
}
use solr_benchmark.Scheduler.UnitAware.{
  Fraction, UnitAwareScheduler, new_unit_aware, scheduler_for, deterministic, rescheduled,
  after_request,
}
use solr_benchmark.Scheduler.Paced.{after_requests, IsPaced, IsPaced-after_requests}
use solr_benchmark.Scheduler.Driven.{request_times, AreDue, in_its_unit}
use solr_benchmark.Scheduler.Due.{request_times-AreDue}

abbrev target : Target
target = record { numerator = 10000; denominator = 10; target_unit = codes "docs/s" }

-- "1000.0 docs/s"
parsed_target : target_throughput absent (text (codes "1000.0 docs/s")) ≡ ok (some target)
unfolding target_throughput
parsed_target = refl

half_second :
    target_throughput (number 1 2) absent
    ≡ ok (some (record { numerator = 2; denominator = 1; target_unit = ops_per_second }))
unfolding target_throughput
half_second = refl

no_target : target_throughput absent (text (codes "0 docs/s")) ≡ ok none
unfolding target_throughput
no_target = refl

-- The schedulers that are there before a workload registers its own.
default_choice :
    built_in >>= (λ r. scheduler_for r absent (number 5 1) none)
    ≡ ok (unit_aware (class deterministic_class))
unfolding scheduler_for register_scheduler get put target_throughput is_legacy_scheduler
    is_simple_scheduler
default_choice = refl

registered_twice : built_in >>= register_scheduler "poisson" function ≡ raise system_setup_error
unfolding register_scheduler get put
registered_twice = refl

abbrev new_scheduler : UnitAwareScheduler
new_scheduler = new_unit_aware (some target) 4 (class deterministic_class)

abbrev paced : UnitAwareScheduler
paced = rescheduled new_scheduler 500 (deterministic (10 * 4 * 500, 10000))

responses : after_requests (500 ∷ 0 ∷ []) (codes "docs") new_scheduler ≡ ok paced
unfolding after_requests
responses = refl

-- A function that was registered as a scheduler fails with the first response.
function_fails :
    after_request 1 (codes "docs") (new_unit_aware (some target) 4 delegating) ≡ raise type_error
unfolding after_request
function_fails = refl

-- So does a simple scheduler of a task without a target throughput.
no_target_fails :
    after_request 1 (codes "ops") (new_unit_aware none 4 (class poisson_class))
    ≡ raise attribute_error
unfolding after_request
no_target_fails = refl

paced_by_documents : IsPaced target 4 (class deterministic_class) (codes "docs") (some 500) paced
paced_by_documents =
    IsPaced-after_requests target 4 (class deterministic_class) (codes "docs") (500 ∷ 0 ∷ []) paced
      responses

abbrev expovariate : Fraction → Fraction
expovariate rate = (1, 1)

abbrev custom_next : SchedulerClass → Fraction → Fraction → Fraction
custom_next c rate current = current

-- A bulk of 500 documents, one that failed, and one of 250: the requests are due at once, after 2 and
-- after 4 seconds, and behind the bulk of 250 one second later.
times_by_documents :
    request_times expovariate custom_next (codes "docs") (500 ∷ 0 ∷ 250 ∷ []) new_scheduler (0, 1)
    ≡ ok ((0, 1) ∷ (20000, 10000) ∷ (400000000, 100000000) ∷ (5000000000000, 1000000000000) ∷ [])
unfolding request_times
times_by_documents = refl

request_times-AreDue_example :
    (dues : List Fraction) × (request_times expovariate custom_next
        (codes "docs")
        (500 ∷ 0 ∷ 250 ∷ [])
        new_scheduler
        (0, 1)
      ≡ ok dues)
    × AreDue target 4 0 0 (500 ∷ 0 ∷ 250 ∷ []) dues
request_times-AreDue_example =
    request_times-AreDue target 4 expovariate custom_next (codes "docs") (λ w. w)
      (500 ∷ 0 ∷ 250 ∷ []) (omega arith) (omega arith) (in_its_unit refl)
