-- ===== src/Client/Subscriber/Alerts.antt =====
-- client/subscriber.py: the popup of a shield that is down, when the shield comes up again.
use terok_clearance.Common.{
  ℕ, String, Bool, none, some, string_eq, get, remove, put, Dict, ◌≡◌, refl, get-put,
  get-remove_self, beq_self,
}
use terok_clearance.Domain.Events.{Dossier}
use terok_clearance.Client.Pending.{EventSubscriber}
use terok_clearance.Client.Subscriber.{
  post_shield_down, close_stale_shield_down, shield_down_posted, finishing, close, returned, Turn,
  begin_task, resume, close_shield_down, alert_shield_down,
}

module _ (c : String) (dossier : Dossier) (allow_all : Bool) (nid : ℕ) (s : EventSubscriber) where
  -- The state once the alert's `notify` has returned.
  abbrev pub posted : EventSubscriber → EventSubscriber
  posted t = (resume (returned nid) (shield_down_posted c) t).subscriber

  abbrev pub posting : EventSubscriber
  posting = (begin_task (post_shield_down c dossier allow_all) s).subscriber

  -- The task that answers the shield's return.
  abbrev pub on_return : EventSubscriber → Turn
  on_return t = begin_task (close_stale_shield_down c) t

  -- For a container without an alert: the task that answers a shield's return closes an alert that was
  -- posted before it, and the subscriber forgets the alert. Where the task runs while the alert is being
  -- posted, it closes nothing, and the alert of a shield that is up again is then tracked as before.
  pub shield_up_order :
      get c s.shield_down_notifs ≡ none
      → ((on_return (posted posting)).waits ≡ some (close nid, finishing))
        × (get c (on_return (posted posting)).subscriber.shield_down_notifs ≡ none)
        × ((on_return posting).waits ≡ none)
        × (get c (posted (on_return posting).subscriber).shield_down_notifs ≡ some nid)
  unfolding begin_task resume close_shield_down alert_shield_down
  shield_up_order h = (
    rw (tracked s.shield_down_notifs) refl,
    rw (tracked s.shield_down_notifs) (get-remove_self c (put c nid s.shield_down_notifs)),
    rw h refl,
    rw h (tracked (remove c s.shield_down_notifs)),
  )
    where
      tracked : (d : Dict String ℕ) → get c (put c nid d) ≡ some nid
      tracked d = rw (get-put, beq_self c) refl
