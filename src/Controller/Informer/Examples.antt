-- ===== src/Controller/Informer/Examples.antt =====
-- The set-up with libraries that all succeed.
use climatik_project.Prelude.{none, true}
use climatik_project.Controller.Informer.{ManagerEnv}

abbrev example_manager : ManagerEnv
example_manager = record {
  new_for_config = none;
  add_runnable = none;
  wait_for_cache_sync = true;
  new_prometheus_client = λ address. none;
  complete = none;
}
