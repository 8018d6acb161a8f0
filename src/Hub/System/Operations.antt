-- ===== src/Hub/System/Operations.antt =====
-- What each operation of the hub does to the key of its container and to a property of every live
-- binding.
use terok_clearance.Common.{
  ℕ, String, Bool, true, false, Option, none, some, ◌≡◌, refl, string_eq, ◌==◌, not, ◌||◌, inl, inr,
  Bool-cases, Entries, Entries-put, Entries-remove, Entries-remove_all, Entries-get, get, contains,
  Result, ok, raise,
}
use terok_clearance.Domain.Events.{ClearanceEvent, verdict_actions}
use terok_clearance.Wire.Errors.{ClearanceError}
use terok_clearance.Hub.State.{Hub, Binding}
use terok_clearance.Hub.Relay.{update_live_verdicts, binds, retires, event_target}
use terok_clearance.Hub.Cleanup.{expire}
use terok_clearance.Hub.Mute.{set_mute_as, mute_as}
use terok_clearance.Hub.Lifecycle.{start}
use terok_clearance.Hub.Verdict.{
  InFlight, Answer, flight, restore, take_binding, check_tuple, begin_taken, begin_verdict, settle,
}

-- Operations that leave the hub's own key and its subscribers alone.
pub record Framed (h g : Hub) : Type 0 where
  pub container : h.container ≡ g.container
  pub subscribers : h.subscribers ≡ g.subscribers

framed : {h g : Hub} → h.container ≡ g.container → h.subscribers ≡ g.subscribers → Framed h g
framed c s = record { container = c; subscribers = s }

pub update_frame :
    (now : ℕ) (event : ClearanceEvent) (hub : Hub) → Framed (update_live_verdicts now event hub) hub
unfolding update_live_verdicts
update_frame now event hub = elim (Bool-cases (binds event)) [
  | inl prompt ↦ rw prompt (framed refl refl)
  | inr other ↦ rw other (elim (Bool-cases (retires event)) [
    | inl ends ↦ rw ends (framed refl refl)
    | inr stays ↦ rw stays (framed refl refl)
  ])
]

pub expire_frame : (now : ℕ) (ttl : Option ℕ) (hub : Hub) → Framed (expire now ttl hub).0 hub
unfolding expire
expire_frame now none hub = framed refl refl
expire_frame now (some ttl) hub = framed refl refl

pub set_mute_frame :
    (m : Bool) (r : Result ClearanceError String) (hub : Hub) → Framed (set_mute_as m r hub).0 hub
unfolding set_mute_as
set_mute_frame m (raise e) hub = framed refl refl
set_mute_frame m (ok key) hub = framed refl refl

pub check_tuple_frame : (v : InFlight) (hub : Hub) → Framed (check_tuple v hub).0 hub
unfolding check_tuple restore
check_tuple_frame v hub =
    elim (Bool-cases (not (v.live.0 == v.container) || not (v.live.1 == v.dest))) [
      | inl differs ↦ rw differs (framed refl refl)
      | inr agrees ↦ rw agrees (framed refl refl)
    ]

pub begin_frame : (c k d a : String) (hub : Hub) → Framed (begin_verdict c k d a hub).0 hub
unfolding begin_verdict take_binding
begin_frame c k d a hub = elim (Bool-cases (contains a verdict_actions)) [
  | inl known ↦ rw known (go (get k hub.live_verdicts))
  | inr unknown ↦ rw unknown (framed refl refl)
]
  where
    go :
        (live : Option Binding)
        → Framed (begin_taken c k d a live (get k hub.live_verdicts_ts) (take_binding k hub)).0 hub
    go none = framed refl refl
    go (some live) =
        let f = check_tuple_frame (flight c k d a live _) (take_binding k hub) in
        framed f.container f.subscribers

pub settle_frame : (v : InFlight) (answer : Answer) (hub : Hub) → Framed (settle v answer hub) hub
unfolding settle restore
settle_frame v answer hub = elim (Bool-cases answer.ok) [
  | inl applied ↦ rw applied (framed refl refl)
  | inr refused ↦ rw refused (framed refl refl)
]

pub start_frame : (i v : Bool) (hub : Hub) → Framed (start i v hub).0 hub
unfolding start
start_frame false v hub = framed refl refl
start_frame true false hub = framed refl refl
start_frame true true hub = framed refl refl

-- What the operations do to a property of every live binding.
module _ (Q : String → Binding → Type 0) where
  pub Entries-update :
      (now : ℕ) (event : ClearanceEvent) (hub : Hub)
      → (binds event ≡ true → Q event.request_id (event.container, event_target event))
      → Entries Q hub.live_verdicts
      → Entries Q (update_live_verdicts now event hub).live_verdicts
  unfolding update_live_verdicts
  Entries-update now event hub new h = elim (Bool-cases (binds event)) [
    | inl prompt ↦ rw prompt (Entries-put Q event.request_id _ hub.live_verdicts (new prompt) h)
    | inr other ↦ rw other (elim (Bool-cases (retires event)) [
      | inl ends ↦ rw ends (Entries-remove_all Q _ hub.live_verdicts h)
      | inr stays ↦ rw stays h
    ])
  ]

  pub Entries-expire :
      (now : ℕ) (ttl : Option ℕ) (hub : Hub)
      → Entries Q hub.live_verdicts
      → Entries Q (expire now ttl hub).0.live_verdicts
  unfolding expire
  Entries-expire now none hub h = h
  Entries-expire now (some ttl) hub h = Entries-remove_all Q _ hub.live_verdicts h

  pub Entries-set_mute :
      (m : Bool) (r : Result ClearanceError String) (hub : Hub)
      → Entries Q hub.live_verdicts
      → Entries Q (set_mute_as m r hub).0.live_verdicts
  unfolding set_mute_as mute_as
  Entries-set_mute m (raise e) hub h = h
  Entries-set_mute m (ok key) hub h = h

  pub Entries-start :
      (i v : Bool) (hub : Hub)
      → Entries Q hub.live_verdicts
      → Entries Q (start i v hub).0.live_verdicts
  unfolding start
  Entries-start false v hub h = h
  Entries-start true false hub h = h
  Entries-start true true hub h = h

  pub Entries-restore :
      (v : InFlight) (hub : Hub)
      → Q v.request_id v.live
      → Entries Q hub.live_verdicts
      → Entries Q (restore v hub).live_verdicts
  unfolding restore
  Entries-restore v hub q h = Entries-put Q v.request_id v.live hub.live_verdicts q h

  pub Entries-check_tuple :
      (v : InFlight) (hub : Hub)
      → Q v.request_id v.live
      → Entries Q hub.live_verdicts
      → Entries Q (check_tuple v hub).0.live_verdicts
  unfolding check_tuple
  Entries-check_tuple v hub q h =
      elim (Bool-cases (not (v.live.0 == v.container) || not (v.live.1 == v.dest))) [
        | inl differs ↦ rw differs (Entries-restore v hub q h)
        | inr agrees ↦ rw agrees h
      ]

  pub Entries-take :
      (k : String) (hub : Hub)
      → Entries Q hub.live_verdicts
      → Entries Q (take_binding k hub).live_verdicts
  unfolding take_binding
  Entries-take k hub h = Entries-remove Q k hub.live_verdicts h

  pub Entries-begin :
      (c k d a : String) (hub : Hub)
      → Entries Q hub.live_verdicts
      → Entries Q (begin_verdict c k d a hub).0.live_verdicts
  unfolding begin_verdict
  Entries-begin c k d a hub h = elim (Bool-cases (contains a verdict_actions)) [
    | inl known ↦ rw known (go (get k hub.live_verdicts) refl)
    | inr unknown ↦ rw unknown h
  ]
    where
      go :
          (live : Option Binding)
          → get k hub.live_verdicts ≡ live
          → Entries Q
              (begin_taken c k d a live
                (get k hub.live_verdicts_ts)
                (take_binding k hub)).0.live_verdicts
      go none e = Entries-take k hub h
      go (some live) e =
          Entries-check_tuple (flight c k d a live _) (take_binding k hub)
            (Entries-get Q k live hub.live_verdicts h e) (Entries-take k hub h)

  pub Entries-settle :
      (v : InFlight) (answer : Answer) (hub : Hub)
      → Q v.request_id v.live
      → Entries Q hub.live_verdicts
      → Entries Q (settle v answer hub).live_verdicts
  unfolding settle
  Entries-settle v answer hub q h = elim (Bool-cases answer.ok) [
    | inl applied ↦ rw applied h
    | inr refused ↦ rw refused (Entries-restore v hub q h)
  ]
