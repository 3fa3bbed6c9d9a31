-- ===== src/Run/State.antt =====
-- api/commands/run.ts: the fields of `Runner`, its constructor, `stop` and `cancel`.
use dataform.Prelude.{
  String, Bool, true, false, not, List, [], map, Option, none, some, filter, includes, add_all,
}
use dataform.Stringified.{Stringifier, StringifiedMap, StringifiedSet, map_of, set_of, get}
use dataform.Proto.{
  Target, ActionStatus, TableKind, TableMetadata, ExecutionAction, ActionResult, ExecutionGraph,
}

pub record ExecutedAction : Type 0 where
  pub execution_action : ExecutionAction
  pub action_result : ActionResult

-- What the runner calls outside the repository: `JSON.stringify` of targets, and the encoding of an
-- action as a protocol buffer.
pub record Encodings : Type 0 where
  pub target_key : Stringifier Target
  pub encode : ExecutionAction → String

-- `running` holds the actions whose promise of `executeAction` is awaited.
pub record Runner : Type 0 where
  pub warehouse : StringifiedMap TableMetadata
  pub non_table_declarations : StringifiedSet
  pub previously_executed : StringifiedMap ExecutedAction
  pub executed : List String
  pub successful : List String
  pub pending : List ExecutionAction
  pub running : List ExecutionAction
  pub results : List ActionResult
  pub stopped : Bool
  pub cancelled : Bool
  pub timed_out : Bool

-- `isSuccessfulAction`
abbrev pub is_successful : ActionStatus → Bool
is_successful ActionStatus.successful = true
is_successful ActionStatus.cache_skipped = true
is_successful ActionStatus.disabled = true
is_successful _ = false

abbrev pub is_running : ActionStatus → Bool
is_running ActionStatus.running = true
is_running _ = false

abbrev pub is_table : Option TableMetadata → Bool
is_table none = false
is_table (some m) = elim m.kind [ TableKind.table ↦ true | _ ↦ false ]

abbrev pub all_action_names : ExecutionGraph → List String
all_action_names graph = map (λ a. a.name) graph.actions

-- the constructor
unfoldable pub create :
    Encodings → ExecutionGraph → List ActionResult → List ExecutedAction → Runner
unfolding map_of set_of get includes add_all
create env graph results previous =
    let warehouse = map_of env.target_key (map (λ m. (m.target, m)) graph.tables) in
    let executed =
      add_all [] (map (λ r. r.name) (filter (λ r. not (is_running r.status)) results)) in
    record {
      warehouse = warehouse;
      non_table_declarations =
          set_of env.target_key (
            filter (λ t. not (is_table (get env.target_key t warehouse)))
              graph.declaration_targets);
      previously_executed =
          map_of env.target_key (map (λ p. (p.execution_action.target, p)) previous);
      executed = executed;
      successful = add_all [] (map (λ r. r.name) (filter (λ r. is_successful r.status) results));
      pending = filter (λ a. not (includes executed a.name)) graph.actions;
      running = [];
      results = results;
      stopped = false;
      cancelled = false;
      timed_out = false;
    }

abbrev pub stop : Runner → Runner
stop s = record s { stopped = true }

-- `cancel`. The event that it emits reaches the warehouse clients, which are outside the model.
abbrev pub cancel : Runner → Runner
cancel s = record s { cancelled = true }

-- the callback of the run's timeout
abbrev pub time_out : Runner → Runner
time_out s = cancel (record s { timed_out = true })
