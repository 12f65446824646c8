-- ===== src/App/Lifespan.antt =====
-- `ApplicationLifespan` of core/app/lifespan.py, its five steps, and the container of
-- core/app/container.py. Whether the work of a step raises is a parameter, and so are the objects
-- that it registers; a log of what was started and stopped is added. The synchronous and the
-- asynchronous life cycle take the same course.
pub mod Order
use mathlib.Core.List.{reverse}
use salesdata_api.Base.{
  String, List, [], ◌∷◌, ◌++◌, Option, none, some, Bool, true, false, str_eq, if◌then◌else◌,
}
use salesdata_api.Base.Dict.{Dict, insert}

pub data LifecycleStep : Type 0 where
  performance data_warehouse executors service_database persistence_queue : LifecycleStep

-- `_steps`, in the order of the start
abbrev pub all_steps : List LifecycleStep
all_steps = performance ∷ data_warehouse ∷ executors ∷ service_database ∷ persistence_queue ∷ []

-- what is configured: the performance library can be imported, a warehouse, a service database
pub record Config : Type 0 where
  pub has_performance : Bool
  pub has_db_config : Bool
  pub has_service_db_path : Bool

pub record Container {ℓ} (V : Type ℓ) : Type ℓ where
  pub services : Dict V
  pub db_session : Option V

pub data Happening : Type 0 where
  started stopped : LifecycleStep → Happening

pub record Lifespan {ℓ} (V : Type ℓ) : Type ℓ where
  pub container : Container V
  pub started_steps : List LifecycleStep
  pub log : List Happening

-- the keys that a step registers if its start does not raise
unfoldable pub registered_keys : Config → LifecycleStep → List String
registered_keys c performance = if c.has_performance then "performance_registry" ∷ [] else []
registered_keys c data_warehouse = if c.has_db_config then "db_session" ∷ [] else []
registered_keys c executors = []
registered_keys c service_database =
    if c.has_service_db_path
    then "service_db" ∷ "service_manager" ∷ "cache_service" ∷ "logging_service" ∷ "tracing_service"
      ∷ "audit_service" ∷ "api_key_service" ∷ "user_service" ∷ []
    else []
registered_keys c persistence_queue = []

module _ {ℓ} {V : Type ℓ} where
  abbrev pub empty_container : Container V
  empty_container = record { services = []; db_session = none }

  abbrev pub init : Lifespan V
  init = record { container = empty_container; started_steps = []; log = [] }

  unfoldable pub register_service : String → V → Container V → Container V
  register_service key v c = record c { services = insert key v c.services }

  unfoldable pub set_database_session : V → Container V → Container V
  unfolding register_service
  set_database_session v c = register_service "db_session" v (record c { db_session = some v })

  unfoldable pub register_all : (String → V) → List String → Container V → Container V
  unfolding register_service set_database_session
  register_all instance_of [] c = c
  register_all instance_of (key ∷ keys) c = register_all instance_of keys (
      if str_eq key "db_session"
      then set_database_session (instance_of key) c
      else register_service key (instance_of key) c)

  module _ (config : Config) (instance_of : String → V) (starts stops : LifecycleStep → Bool) where
    abbrev pub began : LifecycleStep → Lifespan V → Lifespan V
    began step a = record {
      container = register_all instance_of (registered_keys config step) a.container;
      started_steps = a.started_steps ++ step ∷ [];
      log = a.log ++ started step ∷ [];
    }

    -- the loop of `startup_sync`; false if it raises
    unfoldable pub startup : List LifecycleStep → Lifespan V → Lifespan V × Bool
    unfolding register_all registered_keys
    startup [] a = (a, true)
    startup (step ∷ steps) a =
        let rest = startup steps (began step a) in if starts step then rest else (a, false)

    abbrev pub ended : LifecycleStep → Lifespan V → Lifespan V
    ended step a = record a { log = a.log ++ stopped step ∷ [] }

    -- the loop of `shutdown_sync`
    unfoldable pub stop_steps : List LifecycleStep → Lifespan V → Lifespan V × Bool
    stop_steps [] a = (a, true)
    stop_steps (step ∷ steps) a =
        let rest = stop_steps steps (ended step a) in if stops step then rest else (a, false)

    abbrev pub cleared : Lifespan V × Bool → Lifespan V × Bool
    cleared (a, true) = (record a { started_steps = []; container = empty_container }, true)
    cleared (a, false) = (a, false)

    unfoldable pub shutdown : Lifespan V → Lifespan V × Bool
    unfolding stop_steps
    shutdown a = cleared (stop_steps (reverse a.started_steps) a)

    abbrev pub then_shutdown : Lifespan V × Bool → Lifespan V × Bool
    then_shutdown (a, true) = shutdown a
    then_shutdown (a, false) = (a, false)

    -- `lifespan_context`, if the application in between does not raise
    unfoldable pub lifespan_context : List LifecycleStep → Lifespan V → Lifespan V × Bool
    unfolding startup shutdown
    lifespan_context steps a = then_shutdown (startup steps a)
