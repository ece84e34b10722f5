-- ===== src/Server/Stopping/Late.antt =====
-- transport/server.go, `Stop`: when it stops the server.
use multi_region.Prelude.{
  ◌≡◌, ◌≢◌, refl, sym, ap, ◌∙◌, Bool, true, false, not, Option, none, some, List, [], ◌∷◌, ◌++◌,
}
use multi_region.Server.Stopping.{
  GrpcServer, Stage, called, prepared, stored, in_serve, returned, ListenEvent, prepares, stores,
  serves, stops, Listener, listen_run, listen_step, prepare, store, call_serve, accepts, idle,
}

-- The steps that `Listen` has left, if its calls succeed.
abbrev pub rest : Stage → List ListenEvent
rest called = prepares true ∷ stores ∷ serves ∷ []
rest prepared = stores ∷ serves ∷ []
rest stored = serves ∷ []
rest in_serve = []
rest returned = []

-- There is a gRPC server from `stored` on.
abbrev has_server : Stage → Bool
has_server called = false
has_server prepared = false
has_server stored = true
has_server in_serve = true
has_server returned = false

abbrev is_some : {A : Type 0} → Option A → Bool
is_some none = false
is_some (some x) = true

module _ (g : GrpcServer) where
  listen_run-append :
      (l : Listener g) (es fs : List ListenEvent)
      → listen_run g l (es ++ fs) ≡ listen_run g (listen_run g l es) fs
  unfolding listen_run
  listen_run-append l [] fs = refl
  listen_run-append l (e ∷ es) fs = listen_run-append (listen_step g l e) es fs

  abbrev Holds : Listener g → Type 0
  Holds l = is_some l.held ≡ has_server l.stage

  prepares-Holds :
      (ok : Bool) (s : Stage) (o : Option g.Srv)
      → is_some o ≡ has_server s
      → is_some o ≡ has_server (prepare ok s)
  unfolding prepare
  prepares-Holds true called o h = h
  prepares-Holds false called o h = h
  prepares-Holds ok prepared o h = h
  prepares-Holds ok stored o h = h
  prepares-Holds ok in_serve o h = h
  prepares-Holds ok returned o h = h

  stores-Holds : (s : Stage) (l : Listener g) → Holds l → Holds (store g s l)
  unfolding store
  stores-Holds prepared l h = refl
  stores-Holds called l h = h
  stores-Holds stored l h = h
  stores-Holds in_serve l h = h
  stores-Holds returned l h = h

  same_some :
      (f : g.Srv → g.Srv) (o : Option g.Srv)
      → is_some (elim o [ none ↦ none | some s ↦ some (f s) ]) ≡ is_some o
  same_some f none = refl
  same_some f (some s) = refl

  serves-Holds : (s : Stage) (l : Listener g) → l.stage ≡ s → Holds l → Holds (call_serve g s l)
  unfolding call_serve
  serves-Holds stored l e h = same_some g.serve l.held ∙ h ∙ ap has_server e
  serves-Holds called l e h = h
  serves-Holds prepared l e h = h
  serves-Holds in_serve l e h = h
  serves-Holds returned l e h = h

  step-Holds : (l : Listener g) (e : ListenEvent) → Holds l → Holds (listen_step g l e)
  unfolding listen_step
  step-Holds l (prepares ok) h = prepares-Holds ok l.stage l.held h
  step-Holds l stores h = stores-Holds l.stage l h
  step-Holds l serves h = serves-Holds l.stage l refl h
  step-Holds l stops h = same_some g.stop l.held ∙ h

  run-Holds : (l : Listener g) (es : List ListenEvent) → Holds l → Holds (listen_run g l es)
  unfolding listen_run
  run-Holds l [] h = h
  run-Holds l (e ∷ es) h = run-Holds (listen_step g l e) es (step-Holds l e h)

  serves_new : g.is_serving (g.serve g.new_server) ≡ true
  serves_new = g.is_serving-serve g.new_server ∙ ap not g.is_stopped-new_server

  goes_on :
      (s : Stage) (o : Option g.Srv)
      → is_some o ≡ has_server s
      → o ≡ none
      → s ≢ returned
      → accepts g (listen_run g (record { stage = s; held = o }) (stops ∷ rest s)) ≡ true
  unfolding listen_run listen_step prepare store call_serve accepts
  goes_on called none h e r = serves_new
  goes_on prepared none h e r = serves_new
  goes_on stored none h e r = cc
  goes_on in_serve none h e r = cc
  goes_on returned none h e r = absurd (r refl)
  goes_on s (some x) h e r = cc

  -- Whatever `Listen` and `Stop` have done before, if the gRPC server is not stored yet and `Listen`
  -- has not returned: `Stop` comes to nothing, and `Listen`, if its calls succeed, goes on to serve
  -- after `Stop` has returned.
  pub stop_too_early :
      (es : List ListenEvent)
      → (listen_run g (idle g) es).held ≡ none
      → (listen_run g (idle g) es).stage ≢ returned
      → accepts g (listen_run g (idle g) (es ++ stops ∷ rest (listen_run g (idle g) es).stage))
        ≡ true
  stop_too_early es e r =
      let l = listen_run g (idle g) es in
      ap (accepts g) (listen_run-append (idle g) es (stops ∷ rest l.stage))
      ∙ goes_on l.stage l.held (run-Holds (idle g) es refl) e r

  -- Stopped, and past the place where `Listen` stores a server.
  record IsOver (l : Listener g) : Type 0 where
    server : g.Srv
    there : l.held ≡ some server
    stopped : g.is_stopped server ≡ true
    past : has_server l.stage ≡ true

  serves-IsOver : (s : Stage) (l : Listener g) → l.stage ≡ s → IsOver l → IsOver (call_serve g s l)
  unfolding call_serve
  serves-IsOver stored l e h = record {
    server = g.serve h.server;
    there = ap (λ o. elim o [ none ↦ none | some s ↦ some (g.serve s) ]) h.there;
    stopped = g.is_stopped-serve h.server ∙ h.stopped;
    past = refl;
  }
  serves-IsOver called l e h = h
  serves-IsOver prepared l e h = h
  serves-IsOver in_serve l e h = h
  serves-IsOver returned l e h = h

  stores-IsOver : (s : Stage) (l : Listener g) → l.stage ≡ s → IsOver l → IsOver (store g s l)
  unfolding store
  stores-IsOver prepared l e h = let bad = ap has_server (sym e) ∙ h.past in cc
  stores-IsOver called l e h = h
  stores-IsOver stored l e h = h
  stores-IsOver in_serve l e h = h
  stores-IsOver returned l e h = h

  prepare-past : (ok : Bool) (s : Stage) → has_server s ≡ true → has_server (prepare ok s) ≡ true
  unfolding prepare
  prepare-past true called h = cc
  prepare-past false called h = cc
  prepare-past ok prepared h = h
  prepare-past ok stored h = h
  prepare-past ok in_serve h = h
  prepare-past ok returned h = h

  step-IsOver : (l : Listener g) (e : ListenEvent) → IsOver l → IsOver (listen_step g l e)
  unfolding listen_step
  step-IsOver l (prepares ok) h = record {
    server = h.server;
    there = h.there;
    stopped = h.stopped;
    past = prepare-past ok l.stage h.past;
  }
  step-IsOver l stores h = stores-IsOver l.stage l refl h
  step-IsOver l serves h = serves-IsOver l.stage l refl h
  step-IsOver l stops h = record {
    server = g.stop h.server;
    there = ap (λ o. elim o [ none ↦ none | some s ↦ some (g.stop s) ]) h.there;
    stopped = g.is_stopped-stop h.server;
    past = h.past;
  }

  run-IsOver : (l : Listener g) (es : List ListenEvent) → IsOver l → IsOver (listen_run g l es)
  unfolding listen_run
  run-IsOver l [] h = h
  run-IsOver l (e ∷ es) h = run-IsOver (listen_step g l e) es (step-IsOver l e h)

  -- Whatever `Listen` and `Stop` have done before: once `Stop` comes when the gRPC server is stored,
  -- the port accepts no calls any more, whatever of `Listen` and `Stop` follows.
  pub stop_is_final :
      (es es' : List ListenEvent) (s : g.Srv)
      → (listen_run g (idle g) es).held ≡ some s
      → accepts g (listen_run g (idle g) (es ++ stops ∷ es')) ≡ false
  unfolding listen_run listen_step accepts
  stop_is_final es es' s there =
      let l = listen_run g (idle g) es in
      let made = run-Holds (idle g) es refl in
      let over : IsOver (listen_step g l stops) = record {
        server = g.stop s;
        there = ap (λ o. elim o [ none ↦ none | some s ↦ some (g.stop s) ]) there;
        stopped = g.is_stopped-stop s;
        past = sym made ∙ ap is_some there;
      } in
      let end = run-IsOver (listen_step g l stops) es' over in
      ap (accepts g) (listen_run-append (idle g) es (stops ∷ es'))
      ∙ ap (λ o. elim o [ none ↦ false | some s ↦ g.is_serving s ]) end.there
      ∙ g.is_serving-stopped end.server end.stopped
