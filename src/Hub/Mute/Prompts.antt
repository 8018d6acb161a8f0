-- ===== src/Hub/Mute/Prompts.antt =====
-- hub/server.py: the prompts of a muted container.
use terok_clearance.Common.{
  ℕ, String, true, some, ◌≡◌, refl, ap, ◌∙◌, string_eq, contains, Result, ok, raise, PyError,
  overflow_error, Returned, Returned-ok, if◌then◌else◌,
}
use terok_clearance.Domain.Events.{ClearanceEvent}
use terok_clearance.Hub.Payload.{text, Fields, get_field}
use terok_clearance.Hub.Translate.{translate_reader_event}
use terok_clearance.Hub.Translate.Kind.{translate-type}
use terok_clearance.Hub.State.{Hub}
use terok_clearance.Hub.Relay.{
  Admission, dropped, admitted, stamp, is_muted_prompt, screen, admit_type, admit, perform,
  relay_reader_event,
}

abbrev Unmoved : Hub → Admission → Type 0
Unmoved hub a = (now : ℕ) → (perform now a hub).0 ≡ hub

admit_pending :
    (hub : Hub) (raw : Fields)
    → get_field "type" raw ≡ some (text "pending")
    → admit hub raw ≡ screen hub (translate_reader_event "connection_blocked" raw)
unfolding admit admit_type
admit_pending hub raw typed = rw (typed, admit)

screen-ok :
    (hub : Hub) (own : String) (e : ClearanceEvent)
    → hub.container ≡ some own
    → e.type ≡ "connection_blocked"
    → screen hub (ok e)
      ≡ (if contains own hub.muted then dropped else admitted (record e { container = own }))
unfolding screen stamp
screen-ok hub own e serves typed = rw (serves, typed)

-- A hub for one container drops a prompt that it can read exactly if that container is muted, and
-- otherwise admits it under the container's key.
pub admit-prompt :
    (hub : Hub) (own : String) (raw : Fields) {e : ClearanceEvent}
    → hub.container ≡ some own
    → get_field "type" raw ≡ some (text "pending")
    → translate_reader_event "connection_blocked" raw ≡ ok e
    → admit hub raw
      ≡ (if contains own hub.muted then dropped else admitted (record e { container = own }))
admit-prompt hub own raw {e} serves typed translated =
    admit_pending hub raw typed
    ∙ ap (screen hub) translated
    ∙ screen-ok hub own e serves (
        Returned-ok (λ x. x.type ≡ "connection_blocked") _ (translate-type "connection_blocked" raw)
          translated)

module _ (hub : Hub) (own : String) (serves : hub.container ≡ some own)
    (muted : contains own hub.muted ≡ true) where
  stamp_muted :
      (e : ClearanceEvent)
      → e.type ≡ "connection_blocked"
      → is_muted_prompt hub (stamp hub e) ≡ true
  unfolding stamp
  stamp_muted e typed = rw (serves, typed) muted

  screen_muted :
      (r : Result PyError ClearanceEvent)
      → Returned (λ e. e.type ≡ "connection_blocked") r
      → Unmoved hub (screen hub r)
  unfolding screen perform
  screen_muted (raise overflow_error) typed now = refl
  screen_muted (raise _) typed now = refl
  screen_muted (ok e) typed now = rw (stamp_muted e typed)

  -- On a hub for one container that is muted, a reader's `pending` event changes nothing: no
  -- subscriber is sent anything, and no binding is made that a verdict could cite.
  pub muted_prompt_dropped :
      (now : ℕ) (raw : Fields)
      → get_field "type" raw ≡ some (text "pending")
      → (relay_reader_event now raw hub).0 ≡ hub
  unfolding relay_reader_event
  muted_prompt_dropped now raw typed =
      ap (λ a. (perform now a hub).0) (admit_pending hub raw typed)
      ∙ screen_muted (translate_reader_event "connection_blocked" raw)
          (translate-type "connection_blocked" raw) now
