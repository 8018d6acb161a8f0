-- ===== src/Client/Subscriber/Purging.antt =====
-- client/subscriber.py: the background tasks that clean up, each run to its end.
use terok_clearance.Common.{
  ℕ, ◌+◌, ◌≤◌, ◌<◌, String, Bool, Option, none, some, List, [], ◌∷◌, ◌++◌, map, string_eq, ◌==◌,
  get, remove, remove_all, keys_where, none_if, get-purge, length, IsDict, ◌≡◌, refl, ap, ◌∙◌,
  arith, inl, inr, Bool-cases, Option-cases, Entries, beq_self,
}
use mathlib.Core.List.{append-nil}
use terok_clearance.Client.Pending.{PendingBlock, EventSubscriber}
use terok_clearance.Client.Subscriber.{
  handle_shield_down, handle_container_exited, Call, close, Outcome, Turn, ends, begin_task, resume,
  purge_next, blocks_of, close_shield_down,
}
use terok_clearance.Client.Subscriber.Tracked.{Blocks, IsTracked}

-- A task that runs alone, each call that it waits for coming to the next of the outcomes.
unfoldable pub drive : List Outcome → Turn → Turn
drive [] turn = turn
drive (o ∷ os) turn = elim turn.waits [
  | none ↦ turn
  | some (call, rest) ↦ drive os (resume o rest turn.subscriber)
]

-- The calls that it waits for.
unfoldable pub driven : List Outcome → Turn → List Call
driven [] turn = elim turn.waits [ none ↦ [] | some (call, rest) ↦ call ∷ [] ]
driven (o ∷ os) turn = elim turn.waits [
  | none ↦ []
  | some (call, rest) ↦ call ∷ driven os (resume o rest turn.subscriber)
]

abbrev pub is_for : String → PendingBlock → Bool
is_for container p = p.container == container

abbrev pub ids : List PendingBlock → List String
ids = map (λ p. p.request_id)

-- A `close` for each block.
abbrev pub closes : List PendingBlock → List Call
closes = map (λ p. close p.notification_id)

abbrev purged : List PendingBlock → EventSubscriber → EventSubscriber
purged stale s = record s { pending = remove_all (ids stale) s.pending }

module _ (p : PendingBlock) (stale : List PendingBlock) (after : Option String) where
  abbrev dropping : EventSubscriber → EventSubscriber
  dropping s = record s { pending = remove p.request_id s.pending }

  drive_cons :
      (o : Outcome) (os : List Outcome) (s : EventSubscriber)
      → drive (o ∷ os) (purge_next (p ∷ stale) after s)
        ≡ drive os (purge_next stale after (dropping s))
  unfolding drive purge_next resume
  drive_cons o os s = refl

  driven_cons :
      (o : Outcome) (os : List Outcome) (s : EventSubscriber)
      → driven (o ∷ os) (purge_next (p ∷ stale) after s)
        ≡ close p.notification_id ∷ driven os (purge_next stale after (dropping s))
  unfolding driven purge_next resume
  driven_cons o os s = refl

drive-purge_next :
    (stale : List PendingBlock) (after : Option String) (os : List Outcome) (s : EventSubscriber)
    → length stale ≤ length os
    → (rest : List Outcome) × (length rest + length stale ≡ length os)
      × (drive os (purge_next stale after s) ≡ drive rest (purge_next [] after (purged stale s)))
      × (driven os (purge_next stale after s)
          ≡ closes stale ++ driven rest (purge_next [] after (purged stale s)))
unfolding remove_all
drive-purge_next [] after os s h = (os, omega arith, refl, refl)
drive-purge_next (p ∷ stale) after [] s h = absurd (omega arith)
drive-purge_next (p ∷ stale) after (o ∷ os) s h =
    let (rest, n, ends_so, calls) =
      drive-purge_next stale after os (dropping p stale after s) (omega arith) in
    (
      rest,
      omega arith,
      drive_cons p stale after o os s ∙ ends_so,
      driven_cons p stale after o os s ∙ ap (λ cs. close p.notification_id ∷ cs) calls,
    )

-- Filed by its own id, each stale block has the key that the loop takes out.
ids-blocks_of :
    (c : String) (d : Blocks)
    → Entries (λ k p. p.request_id ≡ k) d
    → ids (blocks_of c d) ≡ keys_where (is_for c) d
unfolding blocks_of keys_where
ids-blocks_of c [] h = refl
ids-blocks_of c ((k, p) ∷ d) h = elim (Bool-cases (p.container == c)) [
  | inl here ↦ rw (here, ids-blocks_of c d h.1, h.0)
  | inr other ↦ rw (other, ids-blocks_of c d h.1)
]

Entries-keyed :
    (d : Blocks)
    → IsDict d
    → ((k : String) (p : PendingBlock) → get k d ≡ some p → p.request_id ≡ k)
    → Entries (λ k p. p.request_id ≡ k) d
unfolding get
Entries-keyed [] u h = tt
Entries-keyed ((k, p) ∷ d) u h = (
  h k p (rw (beq_self k) refl),
  Entries-keyed d u.1 (λ j q found. h j q (ground (arith, found, u.0, string_eq.equal_iff k j))),
)

get-purged :
    (c k : String) (s : EventSubscriber)
    → IsTracked s.pending
    → get k (purged (blocks_of c s.pending) s).pending ≡ none_if (is_for c) (get k s.pending)
get-purged c k s v =
    ap (λ ks. get k (remove_all ks s.pending))
      (ids-blocks_of c s.pending (Entries-keyed s.pending v.dict v.keyed))
    ∙ get-purge (is_for c) k s.pending v.dict

-- The close of a container's shield-down popup, if it has one.
abbrev pub close_of : Option ℕ → List Call
close_of none = []
close_of (some nid) = close nid ∷ []

drive_ended : (os : List Outcome) (t : EventSubscriber) → drive os (ends t) ≡ ends t
unfolding drive
drive_ended [] t = refl
drive_ended (o ∷ os) t = refl

driven_ended : (os : List Outcome) (t : EventSubscriber) → driven os (ends t) ≡ []
unfolding driven
driven_ended [] t = refl
driven_ended (o ∷ os) t = refl

-- The end of an exit: what follows the loop, with one more outcome at least.
close_last :
    (c : String) (o : Outcome) (os : List Outcome) (s : EventSubscriber)
    → (drive (o ∷ os) (purge_next [] (some c) s)
        ≡ ends (record s { shield_down_notifs = remove c s.shield_down_notifs }))
      × (driven (o ∷ os) (purge_next [] (some c) s) ≡ close_of (get c s.shield_down_notifs))
unfolding drive driven purge_next close_shield_down resume
close_last c o os s = elim (Option-cases (get c s.shield_down_notifs)) [
  | inl missing ↦ rw missing (refl, refl)
  | inr found ↦ rw found.1 (drive_ended os _, ap (λ cs. close found.0 ∷ cs) (driven_ended os _))
]

abbrev pub exited_task : String → EventSubscriber → Turn
exited_task c s = begin_task (handle_container_exited c) s

close_some :
    (c : String) (os : List Outcome) (s : EventSubscriber)
    → 0 < length os
    → (drive os (purge_next [] (some c) s)
        ≡ ends (record s { shield_down_notifs = remove c s.shield_down_notifs }))
      × (driven os (purge_next [] (some c) s) ≡ close_of (get c s.shield_down_notifs))
close_some c [] s h = absurd (omega arith)
close_some c (o ∷ os) s h = close_last c o os s

drive-exited :
    (c : String) (os : List Outcome) (s : EventSubscriber)
    → length (blocks_of c s.pending) < length os
    → (drive os (exited_task c s)
        ≡ ends (record (purged (blocks_of c s.pending) s) {
          shield_down_notifs = remove c s.shield_down_notifs;
        }))
      × (driven os (exited_task c s)
          ≡ closes (blocks_of c s.pending) ++ close_of (get c s.shield_down_notifs))
unfolding begin_task
drive-exited c os s h =
    let stale = blocks_of c s.pending in
    let (rest, n, state, calls) = drive-purge_next stale (some c) os s (omega arith) in
    let last = close_some c rest (purged stale s) (omega arith) in
    (state ∙ last.0, calls ∙ ap (λ cs. closes stale ++ cs) last.1)

-- The cleanup after a container's exit, where nothing else runs while it waits and the pending map
-- has each request id once, files each block under its own and has one block per container and target:
-- it ends, in no more awaits than the container has blocks and one. No block of the container is
-- pending then, every other block is, its shield-down popup is forgotten, and each of its popups was
-- closed, in order, whether or not the closing of another raised.
pub drive-purged :
    (c : String) (os : List Outcome) (s : EventSubscriber)
    → IsTracked s.pending
    → length (blocks_of c s.pending) < length os
    → ((drive os (exited_task c s)).waits ≡ none)
      × ((k : String)
          → get k (drive os (exited_task c s)).subscriber.pending
            ≡ none_if (is_for c) (get k s.pending))
      × ((drive os (exited_task c s)).subscriber.shield_down_notifs ≡ remove c s.shield_down_notifs)
      × (driven os (exited_task c s)
          ≡ closes (blocks_of c s.pending) ++ close_of (get c s.shield_down_notifs))
drive-purged c os s v h =
    let (state, calls) = drive-exited c os s h in
    (
      ap (λ (t : Turn). t.waits) state,
      λ k. ap (λ (t : Turn). get k t.subscriber.pending) state ∙ get-purged c k s v,
      ap (λ (t : Turn). t.subscriber.shield_down_notifs) state,
      calls,
    )

-- The same for a container whose shield is down: its blocks go, its shield-down popup stays.
pub drive-shield_down :
    (c : String) (os : List Outcome) (s : EventSubscriber)
    → length (blocks_of c s.pending) ≤ length os
    → (drive os (begin_task (handle_shield_down c) s) ≡ ends (purged (blocks_of c s.pending) s))
      × (driven os (begin_task (handle_shield_down c) s) ≡ closes (blocks_of c s.pending))
unfolding begin_task
drive-shield_down c os s h =
    let stale = blocks_of c s.pending in
    let (rest, n, state, calls) = drive-purge_next stale none os s h in
    (
      state ∙ unfold purge_next in drive_ended rest (purged stale s),
      calls
          ∙ ap (λ cs. closes stale ++ cs) (unfold purge_next in driven_ended rest (purged stale s))
          ∙ append-nil (closes stale),
    )
