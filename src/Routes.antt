-- ===== src/Routes.antt =====
-- net_http.go: the registries of routes. The mux of the standard library is given by its HandleFunc, and
-- `R` is the type of what the handlers are made from: a command runner, or a reader of events.
use fairway.Base.{◌≡◌, refl, sym, ap, ◌∙◌, List, [], ◌∷◌, ◌++◌, map}
use mathlib.Core.List.{append-nil, append_assoc}
use fairway.Fdb.{Str}

pub record Registration (R Handler : Type 0) : Type 0 where
  pub pattern : Str
  pub handler : R → Handler

-- HttpChangeRegistry and HttpViewRegistry
pub record HttpRegistry (R Handler : Type 0) : Type 0 where
  pub registered : List (Registration R Handler)

module _ {R Handler : Type 0} where
  -- RegisterCommand and RegisterView
  unfoldable pub register : HttpRegistry R Handler → Str → (R → Handler) → HttpRegistry R Handler
  register registry pattern handler = record {
    registered = registry.registered ++ (record { pattern = pattern; handler = handler }) ∷ [];
  }

  module _ {Mux : Type 0} (handle_func : Mux → Str → Handler → Mux) where
    unfoldable pub register_each : List (Registration R Handler) → Mux → R → Mux
    register_each [] mux runner = mux
    register_each (reg ∷ regs) mux runner =
        register_each regs (handle_func mux reg.pattern (reg.handler runner)) runner

    unfoldable pub register_routes : HttpRegistry R Handler → Mux → R → Mux
    unfolding register_each
    register_routes registry mux runner = register_each registry.registered mux runner

  unfoldable pub routes_from : List Str → List (Registration R Handler) → List Str
  routes_from result [] = result
  routes_from result (c ∷ cs) = routes_from (result ++ c.pattern ∷ []) cs

  unfoldable pub registered_routes : HttpRegistry R Handler → List Str
  unfolding routes_from
  registered_routes registry = routes_from [] registry.registered

  routes_from-map :
      (result : List Str) (regs : List (Registration R Handler))
      → routes_from result regs ≡ result ++ map (λ r. r.pattern) regs
  unfolding routes_from
  routes_from-map result [] = sym (append-nil result)
  routes_from-map result (c ∷ cs) =
      routes_from-map (result ++ c.pattern ∷ []) cs
      ∙ append_assoc result (c.pattern ∷ []) (map (λ r. r.pattern) cs)

  -- A registry lists the patterns in the order in which they were registered, one for each registration.
  pub registered_routes-register :
      (registry : HttpRegistry R Handler) (pattern : Str) (handler : R → Handler)
      → registered_routes (register registry pattern handler)
        ≡ registered_routes registry ++ pattern ∷ []
  unfolding registered_routes register
  registered_routes-register registry pattern handler =
      routes_from-map []
        (registry.registered ++ (record { pattern = pattern; handler = handler }) ∷ [])
      ∙ map_append registry.registered
      ∙ ap (λ ps. ps ++ pattern ∷ []) (sym (routes_from-map [] registry.registered))
    where
      map_append :
          (regs : List (Registration R Handler))
          → map
              (λ (r : Registration R Handler). r.pattern)
              (regs ++ (record { pattern = pattern; handler = handler }) ∷ [])
            ≡ map (λ (r : Registration R Handler). r.pattern) regs ++ pattern ∷ []
      map_append [] = refl
      map_append (c ∷ cs) = ap (λ ps. c.pattern ∷ ps) (map_append cs)
