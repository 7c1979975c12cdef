-- ===== src/Lib.antt =====
-- Solr Benchmark: how a benchmark's load is divided, scheduled, driven, measured and configured.
--
-- A workload has test procedures, each with a schedule of elements, which are tasks or parallel
-- structures of tasks; the loader reads and checks it, filters it and shortens it in test mode. The
-- allocator turns the schedule into a matrix with a row for each client and join points at which all
-- clients meet. The clients are assigned to workers on the load driver hosts. A worker
-- runs the columns of its rows up to a join point and tells the coordinator, which starts all workers again when the last one has come. Each client of a task follows
-- a schedule of invocations; a bulk task reads its lines of a document set in bulks. The samples
-- become throughputs and percentiles, and in a redline test a feedback actor pauses and activates clients by the errors.
--
-- Workload models osbenchmark/workload/workload.py (Operation, Task, Parallel); Filters the equality of
-- tasks and the filters of that file with TaskFilterWorkloadProcessor of osbenchmark/workload/loader.py,
-- TestMode its TestModeWorkloadProcessor, and Loader the operations, tasks, parallel elements and test
-- procedures of its WorkloadSpecificationReader.
-- Of osbenchmark/worker_coordinator/worker_coordinator.py, Allocator models JoinPoint, TaskAllocation and
-- Allocator; Assignments calculate_worker_assignments; Coordinator WorkerCoordinator from
-- joinpoint_reached on; Worker ClientAllocations and the handlers of Worker; Schedule schedule_for,
-- ScheduleHandle, TimePeriodBased and IterationBased; Throughput ThroughputCalculator; Feedback
-- FeedbackActor; Executor execute_single, the samplers and AsyncExecutor, which runs the schedule of one
-- client. Context models osbenchmark/context.py, the nested contexts that measure its requests.
-- Scheduler models osbenchmark/worker_coordinator/scheduler.py, with the target throughput of a task in
-- workload.py.
-- Params models bounds, number_of_bulks, Slice and PartitionBulkIndexParamSource of
-- osbenchmark/workload/params.py, with MmapSource.readlines of osbenchmark/utils/io.py; Offsets the
-- file offset table of that file.
-- Metrics models the in-memory store of osbenchmark/metrics.py with its percentiles. Config models
-- Scope and Config of osbenchmark/config.py, and Versions osbenchmark/utils/versions.py, on texts as
-- lists of code points (Prelude.Text), where a digit is an ASCII one.
-- Aggregation models the averages of Aggregator in osbenchmark/aggregator.py and its check of test runs.
-- Conversion models the translation of queries in osbenchmark/conversion/query.py, with field.py; a query
-- is a tree with one kind and one field at each node.
-- Result has the exceptions, and Prelude what all modules share: lists by native numbers, rounding, and
-- dictionaries. In each part the file of its name has the definitions, where it is large with the files of
-- its steps; its Tests has the examples, and the other files have the theorems that they are named for.
--
-- Numbers are natural numbers. Quotients that Python takes in floating point are exact here, and
-- `round` takes a tie to the even neighbour as Python's does. Time is in whole ticks. A dictionary is
-- an association list. A method that sends messages returns them as a list of effects beside its new
-- state; an exception drops the state. The clock, random numbers, the outcome of the thread that
-- runs tasks, the position that a text file tells, and Solr's parser of queries are arguments. A generator is a function from its state to the next value and state;
-- iteration over it takes fuel or the readings of the clock. The loop in a worker's `drive` has as much
-- fuel as the matrix has columns, and one more, since it fails behind the last column; the loop that
-- builds an offset table has the number of bytes, since a line is not empty.
--
-- Not modelled: streaming ingestion from a cloud store, the transport of actors, logging, and whatever
-- calls a search server or the operating system.
pub mod Prelude
pub mod Result
pub mod Workload
pub mod Aggregation
pub mod Allocator
pub mod Assignments
pub mod Params
pub mod Coordinator
pub mod Worker
pub mod Schedule
pub mod Throughput
pub mod Offsets
pub mod Feedback
pub mod Config
pub mod Filters
pub mod TestMode
pub mod Versions
pub mod Scheduler
pub mod Context
pub mod Executor
pub mod Loader
pub mod Metrics
pub mod Conversion
