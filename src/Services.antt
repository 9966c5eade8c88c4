-- ===== src/Services.antt =====
-- The services that the rep calls: the executor (executor.Client), the BBS (bbs.InternalClient),
-- the evacuation reporter, and the pure library functions of net/url, strconv, encoding/json and
-- bbs/models. They are parameters: `answer` gives a call its reply and the state of the outside
-- world after it. A world keeps the calls made so far, the newest first.
pub mod Only
pub mod Polling
pub mod Latch
pub mod Stays
use rep.Base.{ℕ, String, Bool, List, [], ◌∷◌, Option}
use rep.Base.Int.{ℤ}
use rep.Base.Result.{Result, ok, err}
use rep.Cell.{ActualLrpKey}
use rep.Rootfs.{Url}
use rep.Models.{
  Message, ActualLrpInstanceKey, ActualLrpGroup, ActualLrpNetInfo, Container, DesiredLrp,
  TaskDefinition, EnvironmentVariable, RunRequest, AllocationRequest, ExecutorResources,
}

-- An error of the BBS, by what models.ConvertError says of its type.
pub data BbsError : Type 0 where
  actual_lrp_cannot_be_claimed actual_lrp_cannot_be_started : BbsError
  invalid_state_transition resource_not_found : BbsError
  other_bbs_error : String → BbsError

pub data ExecutorError : Type 0 where
  container_not_found : ExecutorError
  other_executor_error : String → ExecutorError

-- An error of the metron agent, which is only logged.
pub data MetricError : Type 0 where
  metric_not_sent : MetricError

-- A stream of executor.Client.GetFiles, read by archive/tar: whether a first entry is there, and
-- the bytes that one Read into a buffer of the given size returns.
pub record TarStream : Type 0 where
  pub next : Bool
  pub read : ℕ → List ℕ

pub data Call : Type 0 where
  -- executor.Client
  list_containers total_resources remaining_resources volume_drivers healthy ping : Call
  get_container stop_container delete_container : String → Call
  run_container : RunRequest → Call
  get_files : String → String → Call
  allocate_containers : List AllocationRequest → Call
  -- bbs.InternalClient, ActualLRPs
  claim_actual_lrp : String → ℤ → ActualLrpInstanceKey → Call
  start_actual_lrp : ActualLrpKey → ActualLrpInstanceKey → ActualLrpNetInfo → Call
  crash_actual_lrp : ActualLrpKey → ActualLrpInstanceKey → String → Call
  remove_actual_lrp : String → ℤ → ActualLrpInstanceKey → Call
  remove_evacuating_actual_lrp : ActualLrpKey → ActualLrpInstanceKey → Call
  evacuate_claimed_actual_lrp evacuate_stopped_actual_lrp :
      ActualLrpKey → ActualLrpInstanceKey → Call
  evacuate_running_actual_lrp : ActualLrpKey → ActualLrpInstanceKey → ActualLrpNetInfo → ℕ → Call
  evacuate_crashed_actual_lrp : ActualLrpKey → ActualLrpInstanceKey → String → Call
  desired_lrp_by_process_guid actual_lrp_groups : String → Call
  -- bbs.InternalClient, Tasks
  start_task : String → String → Call
  task_by_guid tasks_by_cell_id : String → Call
  complete_task : String → String → Bool → String → List ℕ → Call
  fail_task : String → String → Call
  -- auctioncellrep's generateInstanceGuid and the evacuation reporter
  generate_instance_guid evacuating : Call
  -- loggregator's IngressClient
  send_metric : String → ℤ → Call
  send_duration : String → ℤ → Call
  -- clock.Clock: Now, in nanoseconds, and a receive from a timer or ticker of the given interval
  now : Call
  await_timer : ℤ → Call
  -- evacuation_context.Evacuatable
  evacuate : Call

-- What each call returns. A Go pair (value, err) is a Result where the program reads the value only
-- if err is nil.
abbrev pub Reply : Call → Type 0
Reply list_containers = Result ExecutorError (List Container)
Reply total_resources = Result ExecutorError ExecutorResources
Reply remaining_resources = Result ExecutorError ExecutorResources
Reply volume_drivers = Result ExecutorError (List String)
Reply healthy = Bool
Reply ping = Result ExecutorError (Unit {0})
Reply (get_container _) = Result ExecutorError Container
Reply (stop_container _) = Result ExecutorError (Unit {0})
Reply (delete_container _) = Result ExecutorError (Unit {0})
Reply (run_container _) = Result ExecutorError (Unit {0})
Reply (get_files _ _) = Result ExecutorError TarStream
Reply (allocate_containers _) = Result ExecutorError (List AllocationRequest)
Reply (claim_actual_lrp _ _ _) = Result BbsError (Unit {0})
Reply (start_actual_lrp _ _ _) = Result BbsError (Unit {0})
Reply (crash_actual_lrp _ _ _) = Result BbsError (Unit {0})
Reply (remove_actual_lrp _ _ _) = Result BbsError (Unit {0})
Reply (remove_evacuating_actual_lrp _ _) = Result BbsError (Unit {0})
Reply (evacuate_claimed_actual_lrp _ _) = Bool × Option BbsError
Reply (evacuate_stopped_actual_lrp _ _) = Bool × Option BbsError
Reply (evacuate_running_actual_lrp _ _ _ _) = Bool × Option BbsError
Reply (evacuate_crashed_actual_lrp _ _ _) = Bool × Option BbsError
Reply (desired_lrp_by_process_guid _) = Result BbsError DesiredLrp
Reply (actual_lrp_groups _) = Result BbsError (List ActualLrpGroup)
Reply (start_task _ _) = Result BbsError Bool
Reply (task_by_guid _) = Result BbsError TaskDefinition
Reply (tasks_by_cell_id _) = Result BbsError (List TaskDefinition)
Reply (complete_task _ _ _ _ _) = Result BbsError (Unit {0})
Reply (fail_task _ _) = Result BbsError (Unit {0})
Reply generate_instance_guid = Option String
Reply evacuating = Bool
Reply (send_metric _ _) = Result MetricError (Unit {0})
Reply (send_duration _ _) = Result MetricError (Unit {0})
Reply now = ℤ
Reply (await_timer _) = Unit {0}
Reply evacuate = Unit {0}

-- Pure functions of the libraries; `none` and `false` stand for their errors.
pub record Library : Type 0 where
  pub parse_url : String → Option Url
  pub atoi : String → Option ℤ
  pub itoa : ℤ → String
  pub unmarshal_config : String → Option Message
  pub key_valid : ActualLrpKey → Bool
  pub instance_key_valid : ActualLrpInstanceKey → Bool
  pub net_info_valid : ActualLrpNetInfo → Bool
  pub environment_variables_from_model : List Message → List EnvironmentVariable

pub record Env (S : Type 0) : Type 0 where
  pub lib : Library
  pub answer : (c : Call) → S → Reply c × S

pub record World (S : Type 0) : Type 0 where
  pub outside : S
  pub calls : List Call

abbrev pub M : Type 0 → Type 0 → Type 0
M S A = World S → A × World S

abbrev pub pure : {S A : Type 0} → A → M S A
pure a w = (a, w)

infixl 5 ◌>>=◌ ◌>>◌
abbrev pub ◌>>=◌ : {S A B : Type 0} → M S A → (A → M S B) → M S B
◌>>=◌ m f w = let (a, w') = m w in f a w'

abbrev pub ◌>>◌ : {S A B : Type 0} → M S A → M S B → M S B
m >> n = m >>= λ _. n

-- One call of a service.
abbrev pub ask : {S : Type 0} → Env S → (c : Call) → M S (Reply c)
ask env c w =
    let (reply, outside) = env.answer c w.outside in
    (reply, record { outside = outside; calls = c ∷ w.calls })

-- `if err != nil { failed } else { go }`.
abbrev pub on_result : {S E A B : Type 0} → Result E A → (A → M S B) → (E → M S B) → M S B
on_result (ok a) go failed = go a
on_result (err e) go failed = failed e
