-- ===== src/Client/Sockets/Muting.antt =====
-- client/subscriber.py, client/client.py, wire/interface.py and hub/server.py: an operator's mute of a
-- container, from its socket to the hub behind it and back.
use terok_clearance.Common.{
  ℕ, String, Bool, Option, none, some, List, Dict, string_eq, get, contains, ok, raise, Result,
  ◌>>=◌, if◌then◌else◌, ◌≡◌, refl, sym, ap, ◌∙◌, All, beq_self,
}
use terok_clearance.Domain.Events.{ClearanceEvent}
use terok_clearance.Wire.Errors.{ClearanceError}
use terok_clearance.Wire.Interface.{set_mute_call, mutes_call}
use terok_clearance.Wire.Paths.Rendered.{IsName}
use terok_clearance.Hub.Payload.{text, Fields, get_field}
use terok_clearance.Hub.State.{Hub}
use terok_clearance.Hub.Translate.{translate_reader_event}
use terok_clearance.Hub.Relay.{admit, admitted, dropped}
use terok_clearance.Hub.Verdict.{InFlight, Answer}
use terok_clearance.Verdict.Client.{CallError}
use terok_clearance.Hub.Mute.{mute_key, set_mute, mutes}
use terok_clearance.Hub.Mute.Control.{
  contains-mutes, set_mute-container, IsObeyed, set_mute-IsObeyed,
}
use terok_clearance.Hub.Mute.Prompts.{admit-prompt}
use terok_clearance.Hub.Serve.{hub_interface}
use terok_clearance.Client.Connection.{Failure, error_reply}
use terok_clearance.Client.Rpc
use terok_clearance.Client.Rpc.{landed}
use terok_clearance.Client.Sockets.{
  Child, MultiSocketSubscriber, subscriber_for, set_mute_of, is_muted, among,
}
use terok_clearance.Client.Sockets.Addressed.{at_sockets, subscriber_for-get}

-- A reply that the connection carries: a typed error of the hub arrives as an error reply.
abbrev pub carried : {A : Type 0} → Result ClearanceError A → Result Failure A
carried (ok a) = ok a
carried (raise e) = raise error_reply

module _ (m : MultiSocketSubscriber) (c : String) {child : Child} {connection : ℕ}
    (found : subscriber_for c m.subscribers ≡ some child)
    (connected : child.client.rpc_proxy ≡ some connection) where
  set_mute_of-ok : (b : Bool) → set_mute_of (ok b) c m ≡ ok (some b)
  unfolding set_mute_of landed Rpc.set_mute
  set_mute_of-ok b =
      ap
        (λ (o : Option Child). elim o [
          | none ↦ ok none
          | some answering ↦ Rpc.set_mute (ok b) answering.client
        ])
        found
      ∙ ap (λ (p : Option ℕ). elim p [ none ↦ ok none | some n ↦ landed (ok b) ]) connected

  is_muted-ok : (muted : List String) → is_muted (ok muted) c m ≡ ok (some (contains c muted))
  unfolding is_muted landed Rpc.mutes
  is_muted-ok muted =
      ap
        (λ (o : Option Child). elim o [
          | none ↦ ok none
          | some answering ↦ Rpc.mutes (ok muted) answering.client >>= λ listed. ok (among c listed)
        ])
        found
      ∙ ap
          (λ (p : Option ℕ). elim p [ none ↦ ok none | some n ↦ landed (ok muted) ] >>= λ listed.
            ok (among c listed))
          connected

own_key :
    (hub : Hub) (c : String)
    → hub.container ≡ some c
    → get c hub.mute_keys ≡ some c
    → mute_key hub c ≡ ok c
unfolding mute_key
own_key hub c serves own = rw (serves, own) refl

-- What an operator's mute or unmute of a container comes to, for a reader's prompt of it afterwards
-- that says `e`: the reply; what `is_muted` then says; and whether the hub drops the prompt.
pub record IsMutedAs (helper : InFlight → Result CallError Answer) (m : MultiSocketSubscriber)
    (c : String) (muted : Bool) (raw : Fields) (e : ClearanceEvent)
    (r : Hub × Result ClearanceError Bool) : Type 0 where
  pub reply : set_mute_of (carried r.1) c m ≡ ok (some muted)
  pub read_back : is_muted (ok (mutes_call (hub_interface helper) r.0)) c m ≡ ok (some muted)
  pub prompt : admit r.0 raw ≡ (if muted then dropped else admitted (record e { container = c }))

-- An operator's mute or unmute of a container takes effect at the hub behind its socket. Where the
-- sockets are those of the default layout for ids that are not empty, not a dot and without a slash,
-- the child of the container is connected, and the hub is one for the container that knows it by its
-- id, the call returns the state that was asked for, and `is_muted` then says the same. A prompt
-- that a reader sends after it, and that the hub can read, is dropped if the container is muted and
-- admitted under the container's id otherwise.
pub set_mute-IsMutedAs :
    (helper : InFlight → Result CallError Answer) (m : MultiSocketSubscriber) (c : String)
    (muted : Bool) (xdg : Option String) (uid : ℕ) (children : Dict String Child) (hub : Hub)
    (raw : Fields) {child : Child} {connection : ℕ} {e : ClearanceEvent}
    → All (λ kv. IsName kv.0) children
    → m.subscribers ≡ at_sockets xdg uid children
    → get c children ≡ some child
    → child.client.rpc_proxy ≡ some connection
    → hub.container ≡ some c
    → get c hub.mute_keys ≡ some c
    → get_field "type" raw ≡ some (text "pending")
    → translate_reader_event "connection_blocked" raw ≡ ok e
    → IsMutedAs helper m c muted raw e (set_mute_call (hub_interface helper) c muted hub)
unfolding set_mute_call mutes_call hub_interface
set_mute-IsMutedAs helper m c muted xdg uid children hub raw {child} {connection} {e} named layout
      held connected serves own typed translated =
    record {
      reply =
          ap (λ r. set_mute_of (carried r) c m) obeyed.reply
          ∙ set_mute_of-ok m c found connected muted;
      read_back = is_muted-ok m c found connected (mutes after) ∙ ap (λ b. ok (some b)) in_force;
      prompt =
          admit-prompt after c raw (set_mute-container c muted hub known ∙ serves) typed translated
          ∙ ap (λ b. if b then dropped else admitted (record e { container = c }))
              (sym (contains-mutes c after) ∙ in_force);
    }
  where
    after : Hub
    after = (set_mute c muted hub).0

    known : mute_key hub c ≡ ok c
    known = own_key hub c serves own

    obeyed : IsObeyed c muted hub (set_mute c muted hub)
    obeyed = set_mute-IsObeyed c muted hub known

    in_force : contains c (mutes after) ≡ muted
    in_force = obeyed.listed c ∙ ap (λ b. if b then muted else contains c (mutes hub)) (beq_self c)

    found : subscriber_for c m.subscribers ≡ some child
    found = ap (subscriber_for c) layout ∙ subscriber_for-get xdg uid c children named ∙ held
