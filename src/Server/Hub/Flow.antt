-- ===== src/Server/Hub/Flow.antt =====
-- transport/server.go: what each Downstream stream is given, against what was accepted for it.
use multi_region.Prelude.{
  ℕ, ◌<◌, ◌≡◌, refl, sym, ap, ◌∙◌, Bool, true, false, ◌&&◌, Option, none, some, List, [], ◌∷◌, ◌++◌,
  ◌==◌, ==_iff, lt→ltb, if◌then◌else◌, length, get_elem?, get_or, Bytes, lookup, arith,
  Option-cases, Bool-cases, inl, inr, subst,
}
use mathlib.Core.List.{append-nil, append_assoc}
use multi_region.Envelope.{Envelope}
use multi_region.Server.{
  Server, Context, Error, authorize, child_node_id, register_child, unregister_child, send_to_child,
  set_authorize_child, new_server,
}
use multi_region.Server.Channels.{
  has_room, get_or-set, get_or-append_one, get_or-inside, Within-lookup,
}
use multi_region.Server.Broadcast.{taken_in, broadcast_delivers}
use multi_region.Server.Pending.{IsSameButPending, authorize_lem}
use multi_region.Server.Hub.{
  Session, Hub, Event, connects, pumps, cancels, broadcasts, sends, sets_hook, connect, admit, join,
  leave, cancel, take_out, pump_session, pump, step, run, new_hub,
}
use multi_region.Server.Hub.Invariant.{HubInv}
use multi_region.Server.Hub.Preserve.{step-HubInv, new_hub-HubInv}

-- What `SendToChild` adds to the channel `d`.
abbrev pub addressed : Envelope → List (List Envelope) → Option ℕ → ℕ → List Envelope
addressed env channels none d = []
addressed env channels (some c) d = if (c == d) && has_room channels d then env ∷ [] else []

module _ {S : Type 0} where
  -- What an event puts into the channel `c`: an envelope that is broadcast, or sent to the child
  -- of that channel, if the channel has room.
  abbrev pub accepted : Hub S → Event S → ℕ → List Envelope
  accepted h (broadcasts env) c = taken_in env h.server.channels h.server.children c
  accepted h (sends node_id env) c =
      addressed env h.server.channels (lookup node_id h.server.children) c
  accepted h (connects service ctx now) c = []
  accepted h (pumps i sent) c = []
  accepted h (cancels i) c = []
  accepted h (sets_hook hook) c = []

  pub accepted_over : Hub S → List (Event S) → ℕ → List Envelope
  accepted_over h [] c = []
  accepted_over h (e ∷ es) c = accepted h e c ++ accepted_over (step h e) es c

  -- What the stream of channel `c` was given to send, then what waits in the channel.
  abbrev pub flow : Hub S → ℕ → List Envelope
  flow h c = get_or h.taken c [] ++ get_or h.server.channels c []

  sends-channel :
      (node_id : Bytes) (env : Envelope) (s : Server S) (d : ℕ)
      → ((c : ℕ) → lookup node_id s.children ≡ some c → c < length s.channels)
      → get_or (send_to_child node_id env s).0.channels d []
        ≡ get_or s.channels d [] ++ addressed env s.channels (lookup node_id s.children) d
  unfolding send_to_child
  sends-channel node_id env s d w = elim (Option-cases (lookup node_id s.children)) [
    | inl absent ↦ rw (absent, send_to_child) (sym (append-nil (get_or s.channels d [])))
    | inr (c, found) ↦
        rw (found, send_to_child)
          (ground (
            arith,
            w c found,
            get_or-set s.channels c d (get_or s.channels c [] ++ env ∷ []) [],
            append-nil (get_or s.channels d []),
          ))
  ]

  join-flow : (node_id : Bytes) (h : Hub S) (c : ℕ) → flow (join node_id h.server h) c ≡ flow h c
  unfolding join register_child
  join-flow node_id h c =
      rw (get_or-append_one h.taken [] c, get_or-append_one h.server.channels [] c)

  connects-flow :
      (h : Hub S) (service : S) (ctx : Context) (now c : ℕ)
      → flow (step h (connects service ctx now)) c ≡ flow h c
  unfolding step connect admit
  connects-flow h service ctx now c =
      go (authorize service ctx now (child_node_id ctx) h.server).0
        (authorize service ctx now (child_node_id ctx) h.server).1
        (authorize_lem service ctx now (child_node_id ctx) [] h.server).3
    where
      go :
          (s : Server S) (e : Option Error)
          → IsSameButPending h.server s
          → flow (admit (child_node_id ctx) h (s, e)) c ≡ flow h c
      go s (some e) same = rw same.channels
      go s none same =
          join-flow (child_node_id ctx) (record h { server = s }) c ∙ rw same.channels refl

  take_out-flow :
      (x : Session) (env : Envelope) (rest : List Envelope) (h : Hub S) (c : ℕ)
      → get_or h.server.channels x.channel [] ≡ env ∷ rest
      → length h.taken ≡ length h.server.channels
      → x.channel < length h.server.channels
      → flow (take_out x env rest h) c ≡ flow h c
  unfolding take_out
  take_out-flow x env rest h c e sized inside =
      rw
        (
          get_or-set h.taken x.channel c (get_or h.taken x.channel [] ++ env ∷ []) [],
          get_or-set h.server.channels x.channel c rest [],
        )
        (elim (Bool-cases (x.channel == c)) [
          | inl same ↦
              rw (same, lt→ltb _ _ inside, lt→ltb x.channel (length h.taken) (omega arith))
                (append_assoc (get_or h.taken x.channel []) (env ∷ []) rest
                  ∙ subst
                      (λ d.
                        get_or h.taken x.channel [] ++ env ∷ rest
                        ≡ get_or h.taken d [] ++ get_or h.server.channels d [])
                      ((==_iff x.channel c).0 same)
                      (ap (λ q. get_or h.taken x.channel [] ++ q) (sym e)))
          | inr other ↦ rw other
        ])

  leave-flow : (i : ℕ) (x : Session) (h : Hub S) (c : ℕ) → flow (leave i x h) c ≡ flow h c
  unfolding leave unregister_child
  leave-flow i x h c = refl

  pumps-flow :
      (h : Hub S) (i : ℕ) (sent : Bool) (c : ℕ)
      → HubInv h
      → flow (step h (pumps i sent)) c ≡ flow h c
  unfolding step pump
  pumps-flow h i sent c v = elim (Option-cases (get_elem? h.sessions i)) [
    | inl missing ↦ rw (missing, pump)
    | inr (x, found) ↦ rw (found, pump) (go x (get_or h.server.channels x.channel []) refl sent)
  ]
    where
      go :
          (x : Session) (q : List Envelope)
          → get_or h.server.channels x.channel [] ≡ q
          → (sent : Bool) → flow (pump_session i sent x q h) c ≡ flow h c
      go x [] e sent = refl
      go x (env ∷ rest) e true =
          take_out-flow x env rest h c e v.sized (get_or-inside h.server.channels x.channel e)
      go x (env ∷ rest) e false =
          leave-flow i x (take_out x env rest h) c
          ∙ take_out-flow x env rest h c e v.sized (get_or-inside h.server.channels x.channel e)

  cancels-flow : (h : Hub S) (i c : ℕ) → flow (step h (cancels i)) c ≡ flow h c
  unfolding step cancel
  cancels-flow h i c = elim (Option-cases (get_elem? h.sessions i)) [
    | inl missing ↦ rw (missing, cancel)
    | inr (x, found) ↦ rw (found, cancel) (leave-flow i x h c)
  ]

  step-flow :
      (h : Hub S) (e : Event S) (c : ℕ) → HubInv h → flow (step h e) c ≡ flow h c ++ accepted h e c
  unfolding step set_authorize_child
  step-flow h (connects service ctx now) c v =
      connects-flow h service ctx now c ∙ sym (append-nil (flow h c))
  step-flow h (pumps i sent) c v = pumps-flow h i sent c v ∙ sym (append-nil (flow h c))
  step-flow h (cancels i) c v = cancels-flow h i c ∙ sym (append-nil (flow h c))
  step-flow h (broadcasts env) c v =
      ap (λ q. get_or h.taken c [] ++ q) ((broadcast_delivers env h.server v.within v.distinct).3 c)
      ∙ sym (append_assoc (get_or h.taken c []) _ _)
  step-flow h (sends node_id env) c v =
      ap (λ q. get_or h.taken c [] ++ q)
        (sends-channel node_id env h.server c
          (λ d found. Within-lookup node_id d _ h.server.children found v.within))
      ∙ sym (append_assoc (get_or h.taken c []) _ _)
  step-flow h (sets_hook none) c v = sym (append-nil (flow h c))
  step-flow h (sets_hook (some hook)) c v = sym (append-nil (flow h c))

  run-flow :
      (h : Hub S) (es : List (Event S)) (c : ℕ)
      → HubInv h
      → flow (run h es) c ≡ flow h c ++ accepted_over h es c
  unfolding run accepted_over
  run-flow h [] c v = sym (append-nil (flow h c))
  run-flow h (e ∷ es) c v =
      run-flow (step h e) es c (step-HubInv h e v)
      ∙ ap (λ q. q ++ accepted_over (step h e) es c) (step-flow h e c v)
      ∙ append_assoc (flow h c) (accepted h e c) (accepted_over (step h e) es c)

  -- Over any interleaving of connections, disconnections, broadcasts, targeted sends and the
  -- streams' own steps, from a new server: for each channel, the envelopes that its stream was
  -- given to send, followed by those still waiting in the channel, are those that were accepted
  -- for it, in the same order. None is lost, doubled, reordered or crosses to another channel.
  pub downstream_fifo :
      (es : List (Event S)) (c : ℕ)
      → let h = run (new_hub {S = S}) es in
        get_or h.taken c [] ++ get_or h.server.channels c [] ≡ accepted_over new_hub es c
  unfolding new_hub new_server
  downstream_fifo es c = run-flow new_hub es c new_hub-HubInv
