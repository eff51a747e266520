-- ===== src/Node/Cli.antt =====
-- substrate-kitties/src/cli.rs: what the node does for a command.
pub mod Runs
use Prim.Native.String.{String}
use archer_in_zoo.Prelude.{Bool, true, false, Option, List}
use archer_in_zoo.Outcome.{Result}
use archer_in_zoo.ChainSpec.{Spec, Pairs, load_spec}
use archer_in_zoo.Node.Effects.{
  message, Reply, fine, refused, Effect, pure, ask, expect, ◌>>=◌, ◌>>◌,
}
use archer_in_zoo.Node.Framework.{Parts, Configuration, Framework}
use archer_in_zoo.Node.Service.{
  Local, act, spawn_informant, fire_exit, shutdown_on_idle, new_full_start, new_full, new_light,
}

-- Which of the two futures that `run_until_exit` waits for is first to end, and with what: the service,
-- or the exit, whose channel may have been dropped.
pub data First : Type 0 where
  service_ended : Reply (Unit {0}) → First
  exit_ended : (received : Bool) → First

-- `substrate_cli::ParseAndPrepare`
pub data ParseAndPrepare (Cmd : Type 0) : Type 0 where
  run_command build_spec export_blocks import_blocks purge_chain revert_chain :
      Cmd → ParseAndPrepare Cmd
  custom_command : ParseAndPrepare Cmd

-- `select` with both errors mapped.
unfoldable pub service_result : First → Reply (Unit {0})
service_result (service_ended r) = r
service_result (exit_ended true) = fine tt
service_result (exit_ended false) = refused (message "Exit future failed.")

module _ (parts : Parts) where
  open parts use {Builder, Service}

  -- `handler_set` is what `ctrlc::set_handler` answers in `into_exit`, with `none` for an error.
  unfoldable pub run_until_exit :
      (handler_set : Option (Unit {0})) → First → Effect (Local parts) (Unit {0})
  unfolding act service_result
  run_until_exit handler_set first = do
    act parts spawn_informant
    expect handler_set
    let service_res = service_result first
    act parts fire_exit
    act parts shutdown_on_idle
    ask service_res

  -- What the commands of the framework do, with the functions that they are given.
  pub record Commands (S : Type 0) : Type 1 where
    pub Cmd : Type 0
    pub parse_and_prepare : (args : List String) → ParseAndPrepare Cmd
    pub run :
        Cmd
        → (String → Result (Option S))
        → (Configuration parts → Effect (Local parts) (Unit {0}))
        → Effect (Local parts) (Unit {0})
    pub with_spec : ParseAndPrepare Cmd → (String → Result (Option S)) → Reply (Unit {0})
    pub run_with_builder :
        ParseAndPrepare Cmd
        → (Configuration parts → Effect (Local parts) Builder)
        → (String → Result (Option S))
        → Effect (Local parts) (Unit {0})

  -- `new_runtime` is what tokio's `Runtime::new` answers, its error as a text; `handler_set` what
  -- `ctrlc::set_handler` answers; and `first` tells how the run of a service ends.
  module _ (f : Framework parts) (new_runtime : Reply (Unit {0})) (handler_set : Option (Unit {0}))
      (first : Service → First) where
    -- The `match` on the role: `true` is a light client.
    unfoldable pub run_role :
        (is_light : Bool) → Configuration parts → Effect (Local parts) (Unit {0})
    unfolding new_light new_full run_until_exit
    run_role true config = do
      service ← new_light parts f config
      run_until_exit handler_set (first service)
    run_role false config = do
      service ← new_full parts f config
      run_until_exit handler_set (first service)

    unfoldable pub run_node : Configuration parts → Effect (Local parts) (Unit {0})
    unfolding run_role
    run_node config = do ask new_runtime; run_role (f.is_light config.roles) config

    -- The macro `new_full_start!` where the commands on blocks use it.
    abbrev pub builder_alone : Configuration parts → Effect (Local parts) Builder
    builder_alone config = do start ← new_full_start parts f config; pure start.0

    module _ {AccountId AuraId GrandpaId : Type 0} (p : Pairs AccountId AuraId GrandpaId)
        (cmds : Commands (Spec AccountId AuraId GrandpaId)) where
      unfoldable pub run_parsed : ParseAndPrepare cmds.Cmd → Effect (Local parts) (Unit {0})
      unfolding run_node new_full_start load_spec
      run_parsed (run_command cmd) = cmds.run cmd (load_spec p) run_node
      run_parsed (build_spec cmd) = ask (cmds.with_spec (build_spec cmd) (load_spec p))
      run_parsed (export_blocks cmd) =
          cmds.run_with_builder (export_blocks cmd) builder_alone (load_spec p)
      run_parsed (import_blocks cmd) =
          cmds.run_with_builder (import_blocks cmd) builder_alone (load_spec p)
      run_parsed (purge_chain cmd) = ask (cmds.with_spec (purge_chain cmd) (load_spec p))
      run_parsed (revert_chain cmd) =
          cmds.run_with_builder (revert_chain cmd) builder_alone (load_spec p)
      run_parsed custom_command = pure tt

      unfoldable pub run : (args : List String) → Effect (Local parts) (Unit {0})
      unfolding run_parsed
      run args = run_parsed (cmds.parse_and_prepare args)
