-- ===== src/Node/Service/Tasks.antt =====
-- What service.rs starts on a full service.
use Prim.Native.String.{String}
use mathlib.Core.Path.{subst}
use mathlib.Core.List.{append-nil, append_assoc}
use archer_in_zoo.Prelude.{
  ◌≡◌, ◌≢◌, refl, sym, ap, ◌∙◌, Bool, true, false, none, some, List, [], ◌∷◌, ◌++◌, inl, inr,
  Option-cases,
}
use archer_in_zoo.Node.Effects.{done, panicked, fine, and_then-done, and_then-panicked}
use archer_in_zoo.Node.Framework.{
  Parts, Configuration, GrandpaConfig, GrandpaParams, AuraParams, Framework, BuilderLaws,
}
use archer_in_zoo.Node.Service.{
  Act, spawn_task, spawn_essential_task, disabled_grandpa, Local, fresh, start_authoring,
  start_finality, start_where, grandpa_config, new_full_start, build_full, start_tasks, new_full,
}
use archer_in_zoo.Node.Service.Setup.{
  asked_done, asked_panicked, Imported, new_full_start-done, new_full_start-ne-panicked,
}

module _ (parts : Parts) (f : Framework parts) where
  open parts use {BlockImport, LinkHalf, InherentDataProviders, Builder, Service, Task}

  -- Blocks are authored by an authority alone, as an essential task that uses the given block import.
  abbrev pub Authoring :
      (is_authority force : Bool) → BlockImport → Service → List (Act parts) → Type 0
  Authoring false force import service l = l ≡ []
  Authoring true force import service l =
      (aura : Task) × (params : AuraParams parts) × (f.start_aura params ≡ fine aura)
      × (params.client ≡ f.client_of service)
      × (params.block_import ≡ import)
      × (params.force_authoring ≡ force)
      × (l ≡ spawn_essential_task aura ∷ [])

  -- An authority votes, as an essential task, and another node observes; both by the given link half,
  -- and neither where finality is disabled.
  abbrev pub Finality :
      (is_authority disable : Bool)
      → (name : String) → LinkHalf
      → Service
      → List (Act parts)
      → Type 0
  Finality is_authority true name link service l = l ≡ disabled_grandpa ∷ []
  Finality true false name link service l =
      (voter : Task) × (params : GrandpaParams parts) × (f.run_grandpa_voter params ≡ fine voter)
      × (params.link ≡ link)
      × (params.config.name ≡ some name)
      × (l ≡ spawn_essential_task voter ∷ [])
  Finality false false name link service l =
      (observer : Task) × (config : GrandpaConfig parts) × (f.run_grandpa_observer config link
          (f.network_of service) (f.on_exit_of service)
        ≡ fine observer)
      × (config.name ≡ some name)
      × (l ≡ spawn_task observer ∷ [])

  start_where-Authoring :
      (is_authority force : Bool) (import : BlockImport) (p : InherentDataProviders)
      (service : Service) (s s' : Local parts) (u : Unit {0})
      → start_where parts f is_authority (start_authoring parts f force import p service) s
        ≡ (done u, s')
      → (l : List (Act parts)) × Authoring is_authority force import service l
        × (s'.acts ≡ s.acts ++ l)
  unfolding start_authoring
  start_where-Authoring false force import p service s s' u e =
      ([], refl, (let same : s'.acts ≡ s.acts = cc in same ∙ sym (append-nil s.acts)))
  start_where-Authoring true force import p service s s' u e =
      elim (Option-cases (f.select_chain_of service)) [
        | inl no_chain ↦ let bad = rw no_chain at e in cc
        | inr (chain, there) ↦
            let (slot, _, e1) =
              asked_done (f.get_or_compute (f.client_of service)) _ s u s' (rw there at e) in
            let (aura, made, e2) = asked_done (f.start_aura _) _ s u s' e1 in
            (spawn_essential_task aura ∷ [], (aura, _, made, refl, refl, refl, refl), cc)
      ]

  start_finality-Finality :
      (is_authority disable : Bool) (name : String) (link : LinkHalf) (p : InherentDataProviders)
      (service : Service) (s s' : Local parts) (u : Unit {0})
      → start_finality parts f is_authority disable
          (grandpa_config parts f name service)
          link
          p
          service
          s
        ≡ (done u, s')
      → (l : List (Act parts)) × Finality is_authority disable name link service l
        × (s'.acts ≡ s.acts ++ l)
  unfolding start_finality grandpa_config
  start_finality-Finality false false name link p service s s' u e =
      let (observer, made, e1) = asked_done (f.run_grandpa_observer _ link _ _) _ s u s' e in
      (spawn_task observer ∷ [], (observer, _, made, refl, refl), cc)
  start_finality-Finality true false name link p service s s' u e =
      let (voter, made, e1) = asked_done (f.run_grandpa_voter _) _ s u s' e in
      (spawn_essential_task voter ∷ [], (voter, _, made, refl, refl, refl), cc)
  start_finality-Finality false true name link p service s s' u e =
      let (_, made, e1) = asked_done (f.setup_disabled_grandpa _ p _) _ s u s' e in
      (disabled_grandpa ∷ [], refl, cc)
  start_finality-Finality true true name link p service s s' u e =
      let (_, made, e1) = asked_done (f.setup_disabled_grandpa _ p _) _ s u s' e in
      (disabled_grandpa ∷ [], refl, cc)

  start_where-ne-panicked :
      (is_authority force : Bool) (import : BlockImport) (p : InherentDataProviders)
      (service : Service) (s : Local parts)
      → (start_where parts f is_authority (start_authoring parts f force import p service) s).0
        ≢ panicked
  unfolding start_authoring
  start_where-ne-panicked false force import p service s e = cc
  start_where-ne-panicked true force import p service s e =
      elim (Option-cases (f.select_chain_of service)) [
        | inl no_chain ↦ let bad = rw no_chain at e in cc
        | inr (chain, there) ↦
            let (slot, _, e1) =
              asked_panicked (f.get_or_compute (f.client_of service)) _ s (rw there at e) in
            let (aura, _, e2) = asked_panicked (f.start_aura _) _ s e1 in cc
      ]

  start_finality-ne-panicked :
      (is_authority disable : Bool) (config : GrandpaConfig parts) (link : LinkHalf)
      (p : InherentDataProviders) (service : Service) (s : Local parts)
      → (start_finality parts f is_authority disable config link p service s).0 ≢ panicked
  unfolding start_finality
  start_finality-ne-panicked false false config link p service s e =
      let (_, _, e1) = asked_panicked (f.run_grandpa_observer _ link _ _) _ s e in cc
  start_finality-ne-panicked true false config link p service s e =
      let (_, _, e1) = asked_panicked (f.run_grandpa_voter _) _ s e in cc
  start_finality-ne-panicked false true config link p service s e =
      let (_, _, e1) = asked_panicked (f.setup_disabled_grandpa _ p _) _ s e in cc
  start_finality-ne-panicked true true config link p service s e =
      let (_, _, e1) = asked_panicked (f.setup_disabled_grandpa _ p _) _ s e in cc

  start_tasks-ne-panicked :
      (config : Configuration parts) (b : Builder) (p : InherentDataProviders)
      (setup : BlockImport × LinkHalf) (s : Local parts)
      → (start_tasks parts f config b p setup s).0 ≢ panicked
  unfolding start_tasks
  start_tasks-ne-panicked config b p setup s e =
      let (service, _, e1) = asked_panicked (build_full parts f b) _ s e in
      elim (and_then-panicked
        (start_where parts f (f.is_authority config.roles)
          (start_authoring parts f config.force_authoring setup.0 p service) s)
        _ e1) [
          | inl bad ↦ start_where-ne-panicked _ _ _ p service s bad
          | inr (u, s1, _, e2) ↦
              elim (and_then-panicked
                (start_finality parts f (f.is_authority config.roles) config.disable_grandpa
                  (grandpa_config parts f config.name service) setup.1 p service s1)
                _ e2) [
                  | inl bad ↦ start_finality-ne-panicked _ _ _ setup.1 p service s1 bad
                  | inr (u', s2, _, e3) ↦ cc
                ]
        ]

  start_tasks-done :
      (config : Configuration parts) (b : Builder) (p : InherentDataProviders)
      (setup : BlockImport × LinkHalf) (s s' : Local parts) (service : Service)
      → start_tasks parts f config b p setup s ≡ (done service, s')
      → (authoring : List (Act parts)) × Authoring
          (f.is_authority config.roles)
          config.force_authoring
          setup.0
          service
          authoring
        × (finality : List (Act parts)) × Finality
            (f.is_authority config.roles)
            config.disable_grandpa
            config.name
            setup.1
            service
            finality
        × (s'.acts ≡ s.acts ++ (authoring ++ finality))
  unfolding start_tasks
  start_tasks-done config b p setup s s' service e =
      let (service', _, e1) = asked_done (build_full parts f b) _ s service s' e in
      let (u, s1, authored, e2) =
        and_then-done
          (start_where parts f (f.is_authority config.roles)
            (start_authoring parts f config.force_authoring setup.0 p service') s)
          _ service s' e1 in
      let (u', s2, final, e3) =
        and_then-done
          (start_finality parts f (f.is_authority config.roles) config.disable_grandpa
            (grandpa_config parts f config.name service') setup.1 p service' s1)
          _ service s' e2 in
      let same : service' ≡ service = cc in
      let kept : s2 ≡ s' = cc in
      let (authoring, is_authored, first) =
        start_where-Authoring (f.is_authority config.roles) config.force_authoring setup.0 p
          service' s s1 u authored in
      let (finality, is_final, second) =
        start_finality-Finality (f.is_authority config.roles) config.disable_grandpa config.name
          setup.1 p service' s1 s2 u' final in
      (
        authoring,
        subst
            (λ x.
              Authoring (f.is_authority config.roles) config.force_authoring setup.0 x authoring)
            same is_authored,
        finality,
        subst
            (λ x.
              Finality (f.is_authority config.roles) config.disable_grandpa config.name setup.1 x
                finality)
            same is_final,
        ap (λ (x : Local parts). x.acts) (sym kept)
            ∙ second
            ∙ ap (λ l. l ++ finality) first
            ∙ append_assoc s.acts authoring finality,
      )

  -- The `expect` finds the pair that the closure of the import queue has left, so that `new_full`
  -- never panics, where the builder does not go on without an import queue.
  pub new_full-ne-panicked :
      (laws : BuilderLaws parts f) (config : Configuration parts) (s : Local parts)
      → (new_full parts f config s).0 ≢ panicked
  unfolding new_full
  new_full-ne-panicked laws config s e =
      elim (and_then-panicked (new_full_start parts f config s) _ e) [
        | inl e1 ↦ new_full_start-ne-panicked parts f laws config s e1
        | inr (r, s1, started, e1) ↦
            let (setup, _, set, _) = new_full_start-done parts f laws config s s1 r started in
            start_tasks-ne-panicked config r.0 r.1 setup (record s { import_setup = none })
              (rw set at e1)
      ]

  -- What a full service runs: its block import and its link half were made together.
  abbrev pub FullTasks : Configuration parts → Service → List (Act parts) → Type 0
  FullTasks config service tasks =
      (setup : BlockImport × LinkHalf) × Imported parts f setup
      × (authoring : List (Act parts)) × Authoring (f.is_authority config.roles)
          config.force_authoring setup.0 service authoring
      × (finality : List (Act parts)) × Finality (f.is_authority config.roles)
          config.disable_grandpa config.name setup.1 service finality
      × (tasks ≡ authoring ++ finality)

  pub new_full-tasks :
      (laws : BuilderLaws parts f) (config : Configuration parts) (service : Service)
      (s : Local parts)
      → new_full parts f config (fresh parts) ≡ (done service, s)
      → FullTasks config service s.acts
  unfolding new_full
  new_full-tasks laws config service s e =
      let (r, s1, ran, e1) =
        and_then-done (new_full_start parts f config (fresh parts)) _ service s e in
      let (setup, imported, set, _) =
        new_full_start-done parts f laws config (fresh parts) s1 r ran in
      let (authoring, is_authored, finality, is_final, all) =
        start_tasks-done config r.0 r.1 setup (fresh parts) s service (rw set at e1) in
      (setup, imported, authoring, is_authored, finality, is_final, all)
