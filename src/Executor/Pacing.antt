-- ===== src/Executor/Pacing.antt =====
-- osbenchmark/worker_coordinator/worker_coordinator.py and scheduler.py: the scheduler of a task while the
-- executor runs its turns.
use solr_benchmark.Prelude.{ℕ, String, List, [], ◌∷◌, ◌==◌, if◌then◌else◌}
use solr_benchmark.Executor.Loop.{Turn, Executor}
use solr_benchmark.Scheduler.Target.{Target}
use solr_benchmark.Executor.Answered.{Answers, IsGoing}

-- Each turn has its answer, and none ends the loop.
abbrev pub AreAnswers : String → List Turn → List ℕ → Type 0
AreAnswers unit [] [] = Unit
AreAnswers unit (turn ∷ turns) (weight ∷ weights) =
    (Answers unit turn weight × IsGoing turn) × AreAnswers unit turns weights
AreAnswers _ _ _ = ⊥

-- The last amount that is not 0, `pace` when there is none.
abbrev pub last_pace : ℕ → List ℕ → ℕ
last_pace pace [] = pace
last_pace pace (amount ∷ amounts) = last_pace (if amount == 0 then pace else amount) amounts
