-- ===== src/Node/Cli/Runs.antt =====
-- How a run of the node goes and ends.
use mathlib.Core.List.{append_assoc}
use archer_in_zoo.Prelude.{
  ◌≡◌, ◌≢◌, refl, ap, ◌∙◌, ◌⊎◌, inl, inr, Bool, true, false, Option, none, some, List, [], ◌∷◌,
  ◌++◌,
}
use archer_in_zoo.Node.Effects.{
  done, panicked, Reply, fine, refused, and_then-done, and_then-panicked, ask-done,
}
use archer_in_zoo.Node.Framework.{Parts, Configuration, Framework, BuilderLaws}
use archer_in_zoo.Node.Service.{
  Act, spawn_informant, fire_exit, shutdown_on_idle, Local, fresh, new_light, new_full, build_full,
}
use archer_in_zoo.Node.Service.Setup.{asked_done, asked_panicked, ask-ne-panicked}
use archer_in_zoo.Node.Service.Tasks.{new_full-ne-panicked, new_full-tasks, FullTasks}
use archer_in_zoo.Node.Cli.{
  First, service_ended, exit_ended, service_result, run_until_exit, run_role, run_node,
}

-- The run ends well where the service does, or where the exit is asked for.
abbrev pub EndsWell : First → Type 0
EndsWell first = (first ≡ service_ended (fine tt)) ⊎ (first ≡ exit_ended true)

service_result-EndsWell :
    (first : First) (u : Unit {0}) → service_result first ≡ fine u → EndsWell first
unfolding service_result
service_result-EndsWell (service_ended (fine tt)) u e = inl refl
service_result-EndsWell (service_ended (refused x)) u e = cc
service_result-EndsWell (exit_ended true) u e = inr refl
service_result-EndsWell (exit_ended false) u e = cc

module _ (parts : Parts) (f : Framework parts) where
  open parts use {Service}

  new_light-ne-panicked :
      (config : Configuration parts) (s : Local parts) → (new_light parts f config s).0 ≢ panicked
  unfolding new_light
  new_light-ne-panicked config s e =
      let (b0, _, e0) = asked_panicked (f.new_light_builder config) _ s e in
      let (b1, _, e1) = asked_panicked (f.with_select_chain _ b0) _ s e0 in
      let (b2, _, e2) = asked_panicked (f.with_transaction_pool _ b1) _ s e1 in
      let (b3, _, e3) = asked_panicked (f.with_import_queue_and_fprb _ b2) _ s e2 in
      ask-ne-panicked (build_full parts f b3) s e3

  new_light-acts :
      (config : Configuration parts) (s s' : Local parts) (service : Service)
      → new_light parts f config s ≡ (done service, s')
      → s' ≡ s
  unfolding new_light
  new_light-acts config s s' service e =
      let (b0, _, e0) = asked_done (f.new_light_builder config) _ s service s' e in
      let (b1, _, e1) = asked_done (f.with_select_chain _ b0) _ s service s' e0 in
      let (b2, _, e2) = asked_done (f.with_transaction_pool _ b1) _ s service s' e1 in
      let (b3, _, e3) = asked_done (f.with_import_queue_and_fprb _ b2) _ s service s' e2 in
      (ask-done (build_full parts f b3) s service s' e3).1

  abbrev pub closing : List (Act parts)
  closing = spawn_informant ∷ fire_exit ∷ shutdown_on_idle ∷ []

  run_until_exit-done :
      (handler_set : Option (Unit {0})) (first : First) (s s' : Local parts) (u : Unit {0})
      → run_until_exit parts handler_set first s ≡ (done u, s')
      → EndsWell first × (s'.acts ≡ s.acts ++ closing)
  unfolding run_until_exit
  run_until_exit-done none first s s' u e = cc
  run_until_exit-done (some tt) first s s' u e =
      let (result, state) = ask-done (service_result first) _ u s' e in
      (
        service_result-EndsWell first u result,
        ap (λ (x : Local parts). x.acts) state ∙ simp append_assoc,
      )

  -- The wait panics only where the handler of signals cannot be set.
  run_until_exit-panicked :
      (handler_set : Option (Unit {0})) (first : First) (s : Local parts)
      → (run_until_exit parts handler_set first s).0 ≡ panicked
      → handler_set ≡ none
  unfolding run_until_exit
  run_until_exit-panicked none first s e = refl
  run_until_exit-panicked (some tt) first s e = absurd (ask-ne-panicked (service_result first) _ e)

  module _ (new_runtime : Reply (Unit {0})) (handler_set : Option (Unit {0}))
      (first : Service → First) where
    run_role-panicked :
        (laws : BuilderLaws parts f) (is_light : Bool) (config : Configuration parts)
        (s : Local parts)
        → (run_role parts f new_runtime handler_set first is_light config s).0 ≡ panicked
        → handler_set ≡ none
    unfolding run_role
    run_role-panicked laws true config s e =
        elim (and_then-panicked (new_light parts f config s) _ e) [
          | inl e1 ↦ absurd (new_light-ne-panicked config s e1)
          | inr (service, s1, _, e1) ↦ run_until_exit-panicked handler_set (first service) s1 e1
        ]
    run_role-panicked laws false config s e =
        elim (and_then-panicked (new_full parts f config s) _ e) [
          | inl e1 ↦ absurd (new_full-ne-panicked parts f laws config s e1)
          | inr (service, s1, _, e1) ↦ run_until_exit-panicked handler_set (first service) s1 e1
        ]

    -- Where the builder makes the import queue by a call of its closure and does not go on without one,
    -- and the other calls of the framework return or fail without a panic, a run of the node panics only
    -- if the handler of Ctrl-C cannot be set: the `expect` of a full service finds the pair that the
    -- closure has set, and that of `into_exit` is the only other one.
    pub run_node-panicked :
        (laws : BuilderLaws parts f) (config : Configuration parts) (s : Local parts)
        → (run_node parts f new_runtime handler_set first config s).0 ≡ panicked
        → handler_set ≡ none
    unfolding run_node
    run_node-panicked laws config s e =
        let (_, _, e1) = asked_panicked new_runtime _ s e in
        run_role-panicked laws (f.is_light config.roles) config s e1

    -- What a node runs, by its role.
    abbrev pub NodeTasks :
        (is_light : Bool) → Configuration parts → Service → List (Act parts) → Type 0
    NodeTasks true config service tasks = tasks ≡ []
    NodeTasks false config service tasks = FullTasks parts f config service tasks

    abbrev pub Ran : (is_light : Bool) → Configuration parts → Local parts → Type 0
    Ran is_light config s =
        (service : Service) × EndsWell (first service)
        × (tasks : List (Act parts)) × NodeTasks is_light config service tasks
        × (s.acts ≡ tasks ++ closing)

    run_role-Ran :
        (laws : BuilderLaws parts f) (is_light : Bool) (config : Configuration parts) (u : Unit {0})
        (s : Local parts)
        → run_role parts f new_runtime handler_set first is_light config (fresh parts) ≡ (done u, s)
        → Ran is_light config s
    unfolding run_role
    run_role-Ran laws true config u s e =
        let (service, s1, made, e1) =
          and_then-done (new_light parts f config (fresh parts)) _ u s e in
        let (well, all) = run_until_exit-done handler_set (first service) s1 s u e1 in
        let kept = new_light-acts config (fresh parts) s1 service made in
        (service, well, s1.acts, ap (λ (x : Local parts). x.acts) kept, all)
    run_role-Ran laws false config u s e =
        let (service, s1, made, e1) =
          and_then-done (new_full parts f config (fresh parts)) _ u s e in
        let (well, all) = run_until_exit-done handler_set (first service) s1 s u e1 in
        (service, well, s1.acts, new_full-tasks parts f laws config service s1 made, all)

    -- Where the builder makes the import queue by a call of its closure and does not go on without one,
    -- a run of the node that returns without an error has ended well, the informant was told to exit and
    -- the runtime was shut down. A light client started no task. A full node has authored blocks, as an
    -- essential task with the block import that was made with the link half, exactly if it is an
    -- authority; and unless finality is disabled it has voted by that link half as an essential task if
    -- it is an authority, and observed by it otherwise.
    pub run_node-Ran :
        (laws : BuilderLaws parts f) (config : Configuration parts) (u : Unit {0}) (s : Local parts)
        → run_node parts f new_runtime handler_set first config (fresh parts) ≡ (done u, s)
        → Ran (f.is_light config.roles) config s
    unfolding run_node
    run_node-Ran laws config u s e =
        let (_, _, e1) = asked_done new_runtime _ (fresh parts) u s e in
        run_role-Ran laws (f.is_light config.roles) config u s e1
