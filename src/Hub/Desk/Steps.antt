-- ===== src/Hub/Desk/Steps.antt =====
-- hub/server.py: each operation of the hub on the entry of a request.
use terok_clearance.Common.{
  ℕ, ◌-◌, String, Bool, true, false, Option, none, some, ◌≡◌, refl, ap₂, ◌∙◌, string_eq, ◌==◌, inl,
  inr, Bool-cases, ltb, get, put, get-put, get-remove, get-remove_all, contains,
  contains-keys_where, remove_all, none_if, if◌then◌else◌,
}
use terok_clearance.Domain.Events.{ClearanceEvent}
use terok_clearance.Hub.State.{Hub, Binding}
use terok_clearance.Hub.Invariant.{IsValid}
use terok_clearance.Hub.Relay.{update_live_verdicts, binds, retires, is_of}
use terok_clearance.Hub.Cleanup.{expire, is_stale}
use terok_clearance.Hub.Verdict.{InFlight, take_binding, restore}
use terok_clearance.Hub.Desk.{Entry, set_entry, heard}
use terok_clearance.Hub.Desk.View.{both, entry_of, time_or_zero}

abbrev selected {ℓ} : {V : Type ℓ} → (V → Bool) → Option V → Bool
selected p none = false
selected p (some v) = p v

both-put :
    (k j : String) (b : Binding) (t : ℕ) (hub : Hub)
    → both (get j (put k b hub.live_verdicts)) (get j (put k t hub.live_verdicts_ts))
      ≡ set_entry k (some (b, t)) (λ i. entry_of i hub) j
both-put k j b t hub =
    ap₂ both (get-put k j b hub.live_verdicts) (get-put k j t hub.live_verdicts_ts) ∙ go (k == j)
  where
    go :
        (c : Bool)
        → both
            (if c then some b else get j hub.live_verdicts)
            (if c then some t else get j hub.live_verdicts_ts)
          ≡ (if c then some (b, t) else entry_of j hub)
    go true = refl
    go false = refl

both-purge_live :
    (p : Binding → Bool) (l : Option Binding) (s : Option ℕ) (c : Bool)
    → c ≡ selected p l
    → both (if c then none else l) (if c then none else s) ≡ none_if (λ e. p e.0) (both l s)
both-purge_live p none s c h = rw h refl
both-purge_live p (some b) none c h = elim (Bool-cases (p b)) [
  | inl out ↦ rw (h, out) refl
  | inr stays ↦ rw (h, stays) refl
]
both-purge_live p (some b) (some t) c h = rw h (go (p b))
  where
    go :
        (d : Bool)
        → both (if d then none else some b) (if d then none else some t)
          ≡ (if d then none else some (b, t))
    go true = refl
    go false = refl

both-purge_times :
    (p : ℕ → Bool) (l : Option Binding) (s : Option ℕ) (c : Bool)
    → c ≡ selected p s
    → both (if c then none else l) (if c then none else s) ≡ none_if (λ e. p e.1) (both l s)
both-purge_times p none none c h = rw h refl
both-purge_times p none (some t) c h = elim (Bool-cases (p t)) [
  | inl out ↦ rw (h, out) refl
  | inr stays ↦ rw (h, stays) refl
]
both-purge_times p (some b) none c h = rw h refl
both-purge_times p (some b) (some t) c h = rw h (go (p t))
  where
    go :
        (d : Bool)
        → both (if d then none else some b) (if d then none else some t)
          ≡ (if d then none else some (b, t))
    go true = refl
    go false = refl

module _ {hub : Hub} (valid : IsValid hub) (k : String) where
  both-remove_all :
      (ks : _) (n : Option Entry)
      → both
          (if contains k ks then none else get k hub.live_verdicts)
          (if contains k ks then none else get k hub.live_verdicts_ts)
        ≡ n
      → both (get k (remove_all ks hub.live_verdicts)) (get k (remove_all ks hub.live_verdicts_ts))
        ≡ n
  both-remove_all ks n h =
      ap₂ both (get-remove_all ks k hub.live_verdicts) (get-remove_all ks k hub.live_verdicts_ts)
      ∙ h

  pub entry-update :
      (now : ℕ) (event : ClearanceEvent)
      → entry_of k (update_live_verdicts now event hub) ≡ heard now event k (entry_of k hub)
  unfolding update_live_verdicts
  entry-update now event = elim (Bool-cases (binds event)) [
    | inl prompt ↦ rw prompt (both-put event.request_id k _ now hub)
    | inr other ↦ rw other (elim (Bool-cases (retires event)) [
      | inl ends ↦ rw ends (
          both-remove_all _ _ (
            both-purge_live (is_of event.container) (get k hub.live_verdicts)
              (get k hub.live_verdicts_ts) _
              (contains-keys_where (is_of event.container) k hub.live_verdicts valid.live_dict)))
      | inr stays ↦ rw stays refl
    ])
  ]

  pub entry-expire :
      (now ttl : ℕ)
      → entry_of k (expire now (some ttl) hub).0
        ≡ none_if (λ e. ltb ttl (now - e.1)) (entry_of k hub)
  unfolding expire
  entry-expire now ttl = both-remove_all _ _ (
      both-purge_times (is_stale now ttl) (get k hub.live_verdicts) (get k hub.live_verdicts_ts) _
        (contains-keys_where (is_stale now ttl) k hub.live_verdicts_ts valid.ts_dict))

module _ (k : String) (hub : Hub) (j : String) where
  pub entry-take_binding :
      entry_of j (take_binding k hub) ≡ set_entry k none (λ i. entry_of i hub) j
  unfolding take_binding
  entry-take_binding =
      ap₂ both (get-remove k j hub.live_verdicts) (get-remove k j hub.live_verdicts_ts)
      ∙ go (k == j)
    where
      go :
          (c : Bool)
          → both
              (if c then none else get j hub.live_verdicts)
              (if c then none else get j hub.live_verdicts_ts)
            ≡ (if c then none else entry_of j hub)
      go true = refl
      go false = refl

pub entry-restore :
    (v : InFlight) (hub : Hub) (j : String) (t : ℕ)
    → v.ts ≡ some t
    → entry_of j (restore v hub)
      ≡ set_entry v.request_id (some (v.live, time_or_zero v.ts)) (λ i. entry_of i hub) j
unfolding restore
entry-restore v hub j t timed = rw timed (both-put v.request_id j v.live t hub)
