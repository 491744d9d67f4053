-- ===== src/Http/Breakers.antt =====
-- Which settings the circuit breakers of net/soehttp have, over the operations of
-- circuit_breaker.go and of the global configuration, and what the pool of service clients holds.
use soelib.Common.{
  List, [], ◌∷◌, Option, none, some, true, if◌then◌else◌, Bool-cases, ◌≡◌, ◌≢◌, refl, sym, ap, ◌∙◌,
  ◌⊎◌, inl, inr, arith,
}
use mathlib.Core.Option.{some-ne-none}
use soelib.Common.Text.{String, ◌<>◌, text_eq}
use soelib.Http.Config.{HystrixConfig, default_hystrix_config}
use soelib.Http.Commands.{
  Command, configured, flushed, Globals, SoeHttpConfig, has, configure_hystrix_command,
  reset_hystrix_commands, init_config, reset_config_for_test,
}
use soelib.Http.Clients.{ServiceClientOption, or_default, named, new_service_client}

-- The settings that a breaker was given last, since the last `hystrix.Flush`. That drops the circuits;
-- settings from before it, which it keeps, do not count here.
abbrev pub settings : String → List Command → Option HystrixConfig
settings n [] = none
settings n (flushed ∷ cs) = none
settings n (configured m c ∷ cs) =
    let rest = settings n cs in if text_eq.beq n m then some c else rest

-- The states that the operations lead to from the first one, in which nothing is configured.
pub data Reached : Globals → Type 0 where
  initial : (g : Globals) → g.configured_cmds ≡ [] → Reached g
  configures :
      (name : String) (c : HystrixConfig) {g : Globals}
      → Reached g
      → Reached (configure_hystrix_command name c g)
  resets : {g : Globals} → Reached g → Reached (reset_hystrix_commands g)
  initialises : (config : SoeHttpConfig) {g : Globals} → Reached g → Reached (init_config config g)
  resets_config : {g : Globals} → Reached g → Reached (reset_config_for_test g)

settings-configured :
    (n m : String) (c : HystrixConfig) (cs : List Command)
    → settings n cs ≢ none
    → settings n (configured m c ∷ cs) ≢ none
settings-configured n m c cs h = elim (Bool-cases (text_eq.beq n m)) [
  | inl e ↦ rw e (λ q. some-ne-none c q)
  | inr e ↦ rw e h
]

settings-configure :
    (n name : String) (c : HystrixConfig) (g : Globals)
    → (has n g.configured_cmds ≡ true → settings n g.commands ≢ none)
    → has n (configure_hystrix_command name c g).configured_cmds ≡ true
    → settings n (configure_hystrix_command name c g).commands ≢ none
unfolding configure_hystrix_command
settings-configure n name c g old h = elim (Bool-cases (has name g.configured_cmds)) [
  | inl e ↦ rw e (old (rw e at h))
  | inr e ↦ rw e (elim (Bool-cases (text_eq.beq n name)) [
    | inl f ↦ rw f (λ q. some-ne-none c q)
    | inr f ↦ rw f (old (rw (e, f) at h))
  ])
]

init_commands : SoeHttpConfig → List Command → List Command
init_commands config cs =
    configured "RemoteGET" config.hystrix ∷ configured "RemotePost" config.hystrix ∷ cs

-- In every state that is reached, a breaker that counts as configured has settings.
settings-Reached :
    {g : Globals}
    → Reached g
    → (n : String) → has n g.configured_cmds ≡ true
    → settings n g.commands ≢ none
unfolding reset_hystrix_commands init_config reset_config_for_test init_commands
settings-Reached (initial g e) n h = absurd (ground (arith, sym (ap (has n) e) ∙ h))
settings-Reached (configures name c {g} r) n h =
    settings-configure n name c g (settings-Reached r n) h
settings-Reached (resets r) n h = absurd (ground (arith, h))
settings-Reached (initialises config {g} r) n h =
    let c = config.hystrix in
    let old = settings-Reached r n h in
    let first = settings-configured n "RemotePost" c g.commands old in
    let twice_given =
      settings-configured n "RemoteGET" c (configured "RemotePost" c ∷ g.commands) first in
    settings-configured n "RemoteDELETE" c (init_commands config g.commands) twice_given
settings-Reached (resets_config r) n h = absurd (ground (arith, h))

has-configure :
    (name : String) (c : HystrixConfig) (g : Globals)
    → has name (configure_hystrix_command name c g).configured_cmds ≡ true
unfolding configure_hystrix_command
has-configure name c g = elim (Bool-cases (has name g.configured_cmds)) [
  | inl e ↦ rw (e, e) refl
  | inr e ↦ rw (e, (text_eq.beq_iff name name).1 refl) refl
]

settings-configure_self :
    (name : String) (c : HystrixConfig) (g : Globals)
    → (has name g.configured_cmds ≡ true)
      ⊎ (settings name (configure_hystrix_command name c g).commands ≡ some c)
unfolding configure_hystrix_command
settings-configure_self name c g = elim (Bool-cases (has name g.configured_cmds)) [
  | inl e ↦ inl e
  | inr e ↦ inr (rw (e, (text_eq.beq_iff name name).1 refl) refl)
]

module _ {C T : Type 0} (background : C) (otel_tracer : String → T) where
  -- A service client that enables its breaker names one that has settings: it counted as configured
  -- before, or has those of the client's option, or the default ones without an option.
  pub new_service_client-settings :
      (opt : ServiceClientOption C T) {g : Globals}
      → Reached g
      → opt.enable_hystrix ≡ some true
      → (settings
            (new_service_client background otel_tracer opt g).0.command_name
            (new_service_client background otel_tracer opt g).1.commands
          ≢ none)
        × ((has (new_service_client background otel_tracer opt g).0.command_name g.configured_cmds
              ≡ true)
            ⊎ (settings
                  (new_service_client background otel_tracer opt g).0.command_name
                  (new_service_client background otel_tracer opt g).1.commands
                ≡ some (or_default opt.hystrix_config default_hystrix_config)))
  unfolding new_service_client
  new_service_client-settings opt {g} r e =
      let name = "service-" <> named background otel_tracer opt.service_name in
      let c = or_default opt.hystrix_config default_hystrix_config in
      rw e (
        settings-Reached (configures name c r) name (has-configure name c g),
        settings-configure_self name c g,
      )
