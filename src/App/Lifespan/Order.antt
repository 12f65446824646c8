-- ===== src/App/Lifespan/Order.antt =====
-- In which order the steps start and stop, and what a failure leaves behind.
use mathlib.Core.List.{reverse, reverse-cons, reverse-append}
use salesdata_api.Base.{
  ◌≡◌, refl, sym, ap, ◌∙◌, String, List, [], ◌∷◌, ◌++◌, map, append_assoc, append-nil, Bool, true,
  false, All, All-append, ap₂,
}
use salesdata_api.App.Lifespan.{
  LifecycleStep, Config, Container, Happening, started, stopped, Lifespan, empty_container, init,
  registered_keys, register_all, startup, stop_steps, shutdown, lifespan_context, began, ended,
  then_shutdown, cleared,
}

module _ {ℓ} {V : Type ℓ} (config : Config) (instance_of : String → V)
    (starts stops : LifecycleStep → Bool) where
  -- everything that the steps register, in their order
  abbrev pub all_registered : List LifecycleStep → Container V → Container V
  all_registered [] c = c
  all_registered (step ∷ steps) c =
      all_registered steps (register_all instance_of (registered_keys config step) c)

  -- the state once the steps have started one after another
  abbrev pub after_start : List LifecycleStep → Lifespan V → Lifespan V
  after_start steps a = record {
    container = all_registered steps a.container;
    started_steps = a.started_steps ++ steps;
    log = a.log ++ map started steps;
  }

  abbrev lifespan : Container V → List LifecycleStep → List Happening → Lifespan V
  lifespan c ss l = record { container = c; started_steps = ss; log = l }

  same :
      (c : Container V) {s s' : List LifecycleStep} {l l' : List Happening}
      → s ≡ s'
      → l ≡ l'
      → lifespan c s l ≡ lifespan c s' l'
  same c e e' = ap₂ (lifespan c) e e'

  startup-append :
      (steps rest : List LifecycleStep) (a : Lifespan V)
      → All (λ s. starts s ≡ true) steps
      → startup config instance_of starts stops (steps ++ rest) a
        ≡ startup config instance_of starts stops rest (after_start steps a)
  unfolding startup
  startup-append [] rest a h =
      ap (startup config instance_of starts stops rest)
        (same a.container (sym (append-nil a.started_steps)) (sym (append-nil a.log)))
  startup-append (step ∷ steps) rest a h = rw (h.0) (
      startup-append steps rest (began config instance_of starts stops step a) h.1
      ∙ ap (startup config instance_of starts stops rest) (
          same (all_registered (step ∷ steps) a.container)
            (append_assoc a.started_steps (step ∷ []) steps)
            (append_assoc a.log (started step ∷ []) (map started steps))))

  abbrev after_stop : List LifecycleStep → Lifespan V → Lifespan V
  after_stop steps a = record a { log = a.log ++ map stopped steps }

  stop-append :
      (steps rest : List LifecycleStep) (a : Lifespan V)
      → All (λ s. stops s ≡ true) steps
      → stop_steps config instance_of starts stops (steps ++ rest) a
        ≡ stop_steps config instance_of starts stops rest (after_stop steps a)
  unfolding stop_steps
  stop-append [] rest a h =
      ap (stop_steps config instance_of starts stops rest)
        (same a.container refl (sym (append-nil a.log)))
  stop-append (step ∷ steps) rest a h = rw (h.0) (
      stop-append steps rest (ended config instance_of starts stops step a) h.1
      ∙ ap (stop_steps config instance_of starts stops rest)
          (same a.container refl (append_assoc a.log (stopped step ∷ []) (map stopped steps))))

  -- If the steps before one start and that one raises, start-up raises; the steps before it stay
  -- started and registered, in their order, and the life cycle's context stops none of them.
  pub startup-fails :
      (before : List LifecycleStep) (step : LifecycleStep) (rest : List LifecycleStep)
      → All (λ s. starts s ≡ true) before
      → starts step ≡ false
      → (startup config instance_of starts stops (before ++ step ∷ rest) init
          ≡ (after_start before init, false))
        × (lifespan_context config instance_of starts stops (before ++ step ∷ rest) init
            ≡ (after_start before init, false))
  unfolding lifespan_context
  startup-fails before step rest ok raises =
      let fails =
        startup-append before (step ∷ rest) init ok ∙ (unfold startup in rw raises refl) in
      (fails, ap (then_shutdown config instance_of starts stops) fails)

  reverse-All :
      (P : LifecycleStep → Type 0) (steps : List LifecycleStep)
      → All P steps
      → All P (reverse steps)
  reverse-All P [] h = tt
  reverse-All P (s ∷ ss) h =
      rw (reverse-cons s ss) (All-append P (reverse ss) (s ∷ []) (reverse-All P ss h.1) (h.0, tt))

  -- If all steps start and stop without raising, the context starts them in their order and stops
  -- them in the reverse order, and leaves no step started and an empty container.
  pub context-order :
      (steps : List LifecycleStep)
      → All (λ s. starts s ≡ true) steps
      → All (λ s. stops s ≡ true) steps
      → lifespan_context config instance_of starts stops steps init ≡ (
        record {
          container = empty_container;
          started_steps = [];
          log = map started steps ++ map stopped (reverse steps);
        },
        true,
      )
  unfolding lifespan_context shutdown
  context-order steps ok ends =
      let begun =
        ap (λ ss. startup config instance_of starts stops ss init) (sym (append-nil steps))
        ∙ (startup-append steps [] init ok ∙ (unfold startup in refl)) in
      let halted =
        ap (λ ss. stop_steps config instance_of starts stops ss (after_start steps init))
          (sym (append-nil (reverse steps)))
        ∙ (stop-append (reverse steps) [] (after_start steps init) (reverse-All _ steps ends)
            ∙ (unfold stop_steps in refl)) in
      ap (then_shutdown config instance_of starts stops) begun
      ∙ ap (cleared config instance_of starts stops) halted

  stop-raises :
      (step : LifecycleStep) (rest : List LifecycleStep) (a : Lifespan V)
      → stops step ≡ false
      → stop_steps config instance_of starts stops (step ∷ rest) a ≡ (a, false)
  unfolding stop_steps
  stop-raises step rest a raises = rw raises refl

  -- If a step raises as it is stopped, shutdown raises: the steps started after it have been stopped,
  -- in reverse order, those started before it are not stopped, and all are still held as started.
  pub shutdown-fails :
      (before : List LifecycleStep) (step : LifecycleStep) (later : List LifecycleStep)
      (a : Lifespan V)
      → a.started_steps ≡ before ++ step ∷ later
      → All (λ s. stops s ≡ true) later
      → stops step ≡ false
      → shutdown config instance_of starts stops a
        ≡ (record a { log = a.log ++ map stopped (reverse later) }, false)
  unfolding shutdown
  shutdown-fails before step later a held ok raises =
      let turned =
        ap reverse held
        ∙ (reverse-append before (step ∷ later)
            ∙ (ap (λ ss. ss ++ reverse before) (reverse-cons step later)
                ∙ append_assoc (reverse later) (step ∷ []) (reverse before))) in
      let halted =
        stop-append (reverse later) (step ∷ reverse before) a (reverse-All _ later ok)
        ∙ stop-raises step (reverse before) (after_stop (reverse later) a) raises in
      ap
        (λ ss.
          cleared config instance_of starts stops (stop_steps config instance_of starts stops ss a))
        turned
      ∙ ap (cleared config instance_of starts stops) halted
