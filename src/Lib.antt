-- ===== src/Lib.antt =====
-- Heat, the orchestration engine: a model of its core logic.
--
-- The program. heat-engine turns a template into a stack of resources. It orders the resources by
-- their dependencies, runs a task for each of them under a cooperative scheduler, guards each stack
-- with a lock that the engines share through the database, evaluates alarms on pushed metrics, and
-- grows and shrinks groups of instances when an alarm signals a scaling policy.
--
-- How the parts interact. A DependencyTaskGroup (Scheduler/Group) owns a copy of a dependency graph
-- (Dependencies/Graph) and one TaskRunner (Scheduler/Runner) for each key of it; it deletes a key
-- from the graph when the runner of the key is done. An update (Update/Edges) runs such a group on
-- dependencies that it makes from the edges of two graphs. A watch (WatchRule) signals the
-- resources that its rule names; a scaling policy (Scaling/Policy) is such a resource, and adjusts
-- a group (Scaling/Adjust), whose rolling update (Scaling/Replace) makes templates
-- (Scaling/Template). The tasks of the groups are the actions of resources (Resource/Lifecycle), and
-- the groups are run by the actions of a stack (Stack/Tasks, Stack/Updating, Stack/Deleting), to which
-- the end of a group is an argument.
-- A template (Template/Hot, Template/Sections) is resolved in the end with the parameters of the stack
-- (Template/Runtime, Parameters/Container), and its snippet of a resource says what the resource
-- requires (Resource/Requirements) and what an update changes (Resource/Difference). Each of these
-- takes what it needs of the others, such as the dict of the parameters, as an argument.
--
-- Which file models which part:
--   Prelude       shared notation: Boolean tests, lists, integers, equality as an instance
--   Dict          Python's dict as an association list in its order of iteration
--   Dependencies  heat/engine/dependencies.py: Node, Graph, Dependencies. `needs g a b` reads
--                 `b in g[a].require` and `feeds g a b` reads `b in g[a].satisfy`
--   Scheduler     heat/engine/scheduler.py: Timeout, TaskRunner, wrappertask,
--                 DependencyTaskGroup, PollingTaskGroup
--   StackLock     heat/engine/stack_lock.py and the three transactions stack_lock_create,
--                 stack_lock_steal and stack_lock_release of heat/db/sqlalchemy/api.py
--   WatchRule     heat/engine/watchrule.py
--   Resource      heat/engine/resource.py: _do_action, create, update, delete, destroy,
--                 add_dependencies, update_template_diff, update_template_diff_properties
--   Stack         heat/engine/parser.py: state_set, store, stack_task, create, adopt, suspend, resume,
--                 update_task, delete, restart_resource
--   Template      heat/engine/template.py and heat/engine/hot.py (sections, intrinsic functions),
--                 heat/api/aws/utils.py (lists of members), and transform,
--                 resolve_static_data, resolve_runtime_data of heat/engine/parser.py
--   Parameters    heat/engine/parameters.py, heat/engine/constraints.py
--   Identifiers   heat/common/identifier.py: ARNs, and the identifiers of resources and events
--   Update        heat/engine/update.py: StackUpdate.dependencies (Update/Edges) and the operations of an
--                 update (Update/Operations)
--   Scaling       heat/engine/resources/autoscaling.py (CooldownMixin, AutoScalingGroup.adjust,
--                 ScalingPolicy.handle_signal, InstanceGroup._replace), heat/scaling/template.py
-- An operation has the name of the Python method in snake case; a method that changes an object
-- returns the changed object. In each folder the file that declares the operations comes first, and
-- the other files are named for what they prove.
--
-- What stands for Python. A set is a list without repetitions and a dict an association list;
-- theorems hold for every order of iteration. A generator is the place where it waits, and the code
-- of a task is a parameter: what it does when it is resumed, when an exception is thrown into it and
-- when it is closed. Exceptions are values. The clock is an argument. Floating-point numbers in
-- WatchRule are a record of operations with the laws of their order (NaN excluded); in
-- Scaling/Adjust the rounding is written on whole numbers.
--
-- Fuel. `toposort_loop` takes the number of keys, which is the length that the source iterates over.
-- `get_edges` and `run_to_completion` take fuel or the readings of the clock, with theorems that say
-- how much is enough; `replace_loop` takes two more than the capacity. `cancel_recursively` takes the
-- depth of Python's stack, and raises beyond it. `loop_top` bounds how often the loop of a group
-- comes back to its head behind an exception that is aggregated, and `delegate` how many subtasks in
-- a row end without a yield; more rounds than the rank of the parent's place are enough for it.
-- `transform` takes the depth of Python's stack, counted in nested calls of it.
-- `update_task` takes a list of the ends of the runs of an update; two of them are enough.
--
-- Not modelled. Texts of log entries and exceptions, RPC, Keystone, the notifications of load
-- balancers, the database apart from the table of stack locks. What the RPC call that asks whether an
-- engine is alive comes to is an argument, chosen anew in each step, and a time-out is one of its
-- results; an engine that stops does not come back under the same id. The plug-ins of the resources
-- and the service of the engine are outside the model; an exception of `resolve_static_data` in
-- Resource and Update, and one of the outputs of a stack in Stack/Updating, are arguments. `json.loads`, the split at white space, `re.compile`, the
-- arithmetic of floats, Python's own attributes of values, `str` of a list or a dict and the
-- availability zones are arguments of the functions of templates and parameters. The operations of
-- an update run as a whole, without the steps of other resources in between.
pub mod Prelude
pub mod Dict
pub mod Dependencies
pub mod Scheduler
pub mod StackLock
pub mod WatchRule
pub mod Scaling
pub mod Update
pub mod Resource
pub mod Stack
pub mod Template
pub mod Parameters
pub mod Identifiers
