-- ===== src/Client/Subscriber/Tracked.antt =====
-- client/subscriber.py: what the segments of the coroutines do to the map of pending blocks.
use terok_clearance.Common.{
  ℕ, String, true, ◌&&◌, Option, none, some, List, [], ◌∷◌, Dict, string_eq, ◌==◌, get, put, remove,
  ◌≡◌, ◌≢◌, refl, sym, ap, ◌∙◌, beq_self, arith, inl, inr, Bool-cases, Option-cases, IsDict,
  put-IsDict, remove-IsDict, get-put, get-remove, eq_of_beq, and_true,
}
use terok_clearance.Domain.Events.{ClearanceEvent}
use terok_clearance.Client.Pending.{PendingBlock, EventSubscriber}
use terok_clearance.Client.Subscriber.{
  Coroutine, handle_shield_down, handle_container_exited, close_stale_shield_down, post_shield_down,
  post_shield_up, post_container_started, post_container_exited, send_verdict, begin_task,
  purge_next, blocks_of, close_shield_down, close_popped, live_block_on, drop_prior, new_block,
  handle_verdict_applied, alert_shield_down,
}

abbrev pub Blocks : Type 0
Blocks = Dict String PendingBlock

-- The map has each request id once, files each block under its own, and has one block at most for
-- a container and a target.
pub record IsTracked (d : Blocks) : Type 0 where
  pub dict : IsDict d
  pub keyed : (k : String) (p : PendingBlock) → get k d ≡ some p → p.request_id ≡ k
  pub single :
      (j k : String) (p q : PendingBlock)
      → get j d ≡ some p
      → get k d ≡ some q
      → p.container ≡ q.container
      → p.target ≡ q.target
      → j ≡ k

-- Every block of the second map is in the first.
pub record Shrinks (d e : Blocks) : Type 0 where
  pub dict : IsDict d → IsDict e
  pub kept : (k : String) (p : PendingBlock) → get k e ≡ some p → get k d ≡ some p

pub Shrinks-refl : (d : Blocks) → Shrinks d d
Shrinks-refl d = record { dict = λ h. h; kept = λ k p h. h }

pub Shrinks-remove : (k : String) (d : Blocks) → Shrinks d (remove k d)
Shrinks-remove k d = record {
  dict = remove-IsDict k d;
  kept = λ j p h. ground (arith, h, get-remove k j d);
}

pub Shrinks-IsTracked : {d e : Blocks} → Shrinks d e → IsTracked d → IsTracked e
Shrinks-IsTracked s t = record {
  dict = s.dict t.dict;
  keyed = λ k p h. t.keyed k p (s.kept k p h);
  single = λ j k p q hj hk. t.single j k p q (s.kept j p hj) (s.kept k q hk);
}

close_shield_down-Shrinks :
    (c : String) (s : EventSubscriber)
    → Shrinks s.pending (close_shield_down c s).subscriber.pending
unfolding close_shield_down
close_shield_down-Shrinks c s = go (get c s.shield_down_notifs)
  where
    dropped : EventSubscriber
    dropped = record s { shield_down_notifs = remove c s.shield_down_notifs }

    go : (o : Option ℕ) → Shrinks s.pending (close_popped o dropped).subscriber.pending
    go none = Shrinks-refl s.pending
    go (some nid) = Shrinks-refl s.pending

pub purge_next-Shrinks :
    (stale : List PendingBlock) (after : Option String) (s : EventSubscriber)
    → Shrinks s.pending (purge_next stale after s).subscriber.pending
unfolding purge_next
purge_next-Shrinks [] none s = Shrinks-refl s.pending
purge_next-Shrinks [] (some c) s = close_shield_down-Shrinks c s
purge_next-Shrinks (p ∷ stale) after s = Shrinks-remove p.request_id s.pending

pub begin_task-Shrinks :
    (c : Coroutine) (s : EventSubscriber) → Shrinks s.pending (begin_task c s).subscriber.pending
unfolding begin_task alert_shield_down
begin_task-Shrinks (handle_shield_down c) s = purge_next-Shrinks (blocks_of c s.pending) none s
begin_task-Shrinks (handle_container_exited c) s =
    purge_next-Shrinks (blocks_of c s.pending) (some c) s
begin_task-Shrinks (close_stale_shield_down c) s = close_shield_down-Shrinks c s
begin_task-Shrinks (post_shield_down c d a) s = Shrinks-refl s.pending
begin_task-Shrinks (post_shield_up c d) s = Shrinks-refl s.pending
begin_task-Shrinks (post_container_started c d) s = Shrinks-refl s.pending
begin_task-Shrinks (post_container_exited c r d) s = Shrinks-refl s.pending
begin_task-Shrinks (send_verdict c r t a) s = Shrinks-refl s.pending

pub handle_verdict_applied-Shrinks :
    (event : ClearanceEvent) (s : EventSubscriber)
    → Shrinks s.pending (handle_verdict_applied event s).subscriber.pending
unfolding handle_verdict_applied
handle_verdict_applied-Shrinks event s = elim (Option-cases (get event.request_id s.pending)) [
  | inl missing ↦ rw missing (Shrinks-remove event.request_id s.pending)
  | inr found ↦ rw found.1 (Shrinks-remove event.request_id s.pending)
]

-- Where the search finds no block, there is none for the container and the target.
unlisted :
    (c t k : String) (p : PendingBlock) (d : Blocks)
    → live_block_on c t d ≡ none
    → get k d ≡ some p
    → p.container ≡ c
    → p.target ≢ t
unfolding live_block_on get
unlisted c t k p [] h found = absurd (ground arith)
unlisted c t k p ((j, q) ∷ d) h found =
    ground
      (arith, unlisted c t k p d, string_eq.equal_iff q.container c, string_eq.equal_iff q.target t)

-- What the search finds stands in the map, for the container and the target.
live_block_on_found :
    (c t : String) (q : PendingBlock) (d : Blocks)
    → IsDict d
    → live_block_on c t d ≡ some q
    → (k : String) × (get k d ≡ some q) × (q.container ≡ c) × (q.target ≡ t)
unfolding live_block_on get
live_block_on_found c t q [] u h = absurd (ground arith)
live_block_on_found c t q ((j, p) ∷ d) u h = elim (Bool-cases (p.container == c && p.target == t)) [
  | inl here ↦
      let same : p ≡ q = ground arith in
      let both = and_true (p.container == c) (p.target == t) here in
      (
        j,
        rw (string_eq_refl j) (ap some same),
        ap (λ (x : PendingBlock). x.container) (sym same) ∙ eq_of_beq p.container c both.0,
        ap (λ (x : PendingBlock). x.target) (sym same) ∙ eq_of_beq p.target t both.1,
      )
  | inr next ↦
      let (k, found, at_c, at_t) = live_block_on_found c t q d u.1 (rw next at h) in
      (k, ground (arith, u.0, found, string_eq.equal_iff j k), at_c, at_t)
]
  where
    string_eq_refl : (j : String) → (j == j) ≡ true
    string_eq_refl j = beq_self j

-- Of the blocks of a map, only the prior one can be for the container and the target.
abbrev pub IsOnly : String → String → Option PendingBlock → Blocks → Type 0
IsOnly c t prior d =
    (k : String) (p : PendingBlock)
    → get k d ≡ some p
    → p.container ≡ c
    → p.target ≡ t
    → (q : PendingBlock) × (prior ≡ some q) × (q.request_id ≡ k)

pub live_block_on-IsOnly :
    (c t : String) (d : Blocks) → IsTracked d → IsOnly c t (live_block_on c t d) d
live_block_on-IsOnly c t d v k p found at_c at_t = go (live_block_on c t d) refl
  where
    go :
        (o : Option PendingBlock)
        → live_block_on c t d ≡ o
        → (q : PendingBlock) × (o ≡ some q) × (q.request_id ≡ k)
    go none missing = absurd (unlisted c t k p d missing found at_c at_t)
    go (some q) hit =
        let (j, there, of_c, of_t) = live_block_on_found c t q d v.dict hit in
        (
          q,
          refl,
          v.keyed j q there ∙ v.single j k q p there found (of_c ∙ sym at_c) (of_t ∙ sym at_t),
        )

pub IsOnly-Shrinks :
    (c t : String) (prior : Option PendingBlock) {d e : Blocks}
    → Shrinks d e
    → IsOnly c t prior d
    → IsOnly c t prior e
IsOnly-Shrinks c t prior s h k p found = h k p (s.kept k p found)

pub drop_prior-Shrinks : (prior : Option PendingBlock) (d : Blocks) → Shrinks d (drop_prior prior d)
drop_prior-Shrinks none d = Shrinks-refl d
drop_prior-Shrinks (some q) d = Shrinks-remove q.request_id d

-- With the prior block dropped, none is left for the container and the target.
drop_prior_none :
    (c t : String) (prior : Option PendingBlock) (d : Blocks) (k : String) (p : PendingBlock)
    → IsOnly c t prior d
    → get k (drop_prior prior d) ≡ some p
    → p.container ≡ c
    → p.target ≢ t
drop_prior_none c t none d k p only found at_c at_t =
    let (q, impossible, _) = only k p found at_c at_t in cc
drop_prior_none c t (some r) d k p only found at_c at_t =
    let (q, same, keyed) = only k p ((Shrinks-remove r.request_id d).kept k p found) at_c at_t in
    let r_keyed : r.request_id ≡ k = ground arith in
    ground (arith, found, get-remove r.request_id k d, string_eq.equal_iff r.request_id k)

module _ (event : ClearanceEvent) (target : String) (count nid : ℕ) (first_seen : String) where
  block : PendingBlock
  block = new_block event target count first_seen nid

  added : Blocks → Blocks
  added d = put event.request_id block d

  -- A block for a container and a target that have none.
  put-IsTracked :
      (d : Blocks)
      → IsTracked d
      → ((k : String) (p : PendingBlock)
          → get k d ≡ some p
          → p.container ≡ event.container
          → p.target ≢ target)
      → IsTracked (added d)
  unfolding block added
  put-IsTracked d v free = record {
    dict = put-IsDict event.request_id block d v.dict;
    keyed = λ k p h. ground (
      arith,
      h,
      v.keyed k p,
      get-put event.request_id k block d,
      string_eq.equal_iff event.request_id k,
    );
    single = λ j k p q hj hk same_c same_t. ground (
      arith,
      hj,
      hk,
      v.single j k p q,
      free j p,
      free k q,
      get-put event.request_id j block d,
      get-put event.request_id k block d,
      string_eq.equal_iff event.request_id j,
      string_eq.equal_iff event.request_id k,
    );
  }

  pub record_block-IsTracked :
      (prior : Option PendingBlock) (d : Blocks)
      → IsTracked d
      → IsOnly event.container target prior d
      → IsTracked
          (put event.request_id (new_block event target count first_seen nid) (drop_prior prior d))
  unfolding block added
  record_block-IsTracked prior d v only =
      put-IsTracked (drop_prior prior d) (Shrinks-IsTracked (drop_prior-Shrinks prior d) v)
        (λ k p. drop_prior_none event.container target prior d k p only)
