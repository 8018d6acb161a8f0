-- ===== src/Hub/Relay/Queue.antt =====
-- hub/server.py: the bounded queue of one subscriber.
use terok_clearance.Common.{
  ℕ, zero, suc, ◌-◌, ◌≤◌, List, [], ◌∷◌, ◌++◌, map, ◌≡◌, refl, ap, sym, ◌∙◌, arith, inl, inr,
  Bool-cases, leb, leb→le, leb→gt, length, drop, length-append, All,
}
use mathlib.Core.List.{append_assoc, append-nil}
use terok_clearance.Domain.Events.{ClearanceEvent}
use terok_clearance.Hub.State.{Subscriber, subscriber_queue_depth}
use terok_clearance.Hub.Invariant.{IsBounded}
use terok_clearance.Hub.Relay.{push, receive}

length-drop : {A : Type 0} (n : ℕ) (xs : List A) → length (drop n xs) ≡ length xs - n
length-drop zero xs = omega arith
length-drop (suc n) [] = omega arith
length-drop (suc n) (x ∷ xs) = omega (arith, length-drop n xs)

-- The newest events of a sequence, as many as a queue holds.
abbrev pub newest : List ClearanceEvent → List ClearanceEvent
newest events = drop (length events - subscriber_queue_depth) events

-- The queue after a sequence of events.
unfoldable pub push_all : List ClearanceEvent → List ClearanceEvent → List ClearanceEvent
push_all [] queue = queue
push_all (e ∷ es) queue = push_all es (push e queue)

length-newest : (es : List ClearanceEvent) → length (newest es) ≤ subscriber_queue_depth
length-newest es = omega (arith, length-drop (length es - 128) es)

drop-append :
    {A : Type 0} (n : ℕ) (xs ys : List A) → n ≤ length xs → drop n (xs ++ ys) ≡ drop n xs ++ ys
drop-append zero xs ys h = refl
drop-append (suc n) [] ys h = absurd (omega arith)
drop-append (suc n) (x ∷ xs) ys h = drop-append n xs ys (omega arith)

drop-suc : {A : Type 0} (n : ℕ) (xs : List A) → drop (suc n) xs ≡ drop 1 (drop n xs)
drop-suc zero [] = refl
drop-suc zero (x ∷ xs) = refl
drop-suc (suc n) [] = refl
drop-suc (suc n) (x ∷ xs) = drop-suc n xs

drop_past :
    (m : ℕ) (e : ClearanceEvent) (es : List ClearanceEvent)
    → suc m ≤ length es
    → drop 1 (drop m es) ++ (e ∷ []) ≡ drop (suc m) (es ++ (e ∷ []))
drop_past m e es h = rw (← drop-suc m es) (sym (drop-append (suc m) es (e ∷ []) h))

-- One more event keeps the newest.
push-newest :
    (e : ClearanceEvent) (es : List ClearanceEvent) → push e (newest es) ≡ newest (es ++ (e ∷ []))
unfolding push
push-newest e es = elim (Bool-cases (leb 128 (length (newest es)))) [
  | inl fits ↦
      let held = leb→le 128 (length (newest es)) fits in
      let step : length (es ++ (e ∷ [])) - 128 ≡ suc (length es - 128) =
        omega (arith, length-append es (e ∷ []), length-drop (length es - 128) es) in
      rw (fits, step)
        (drop_past (length es - 128) e es (omega (arith, length-drop (length es - 128) es)))
  | inr room ↦
      let short = leb→gt 128 (length (newest es)) room in
      let all : length es - 128 ≡ 0 = omega (arith, length-drop (length es - 128) es) in
      let all' : length (es ++ (e ∷ [])) - 128 ≡ 0 =
        omega (arith, length-append es (e ∷ []), length-drop (length es - 128) es) in
      rw (room, all, all')
]

newest_short : (es : List ClearanceEvent) → length es ≤ subscriber_queue_depth → newest es ≡ es
newest_short es h = let all : length es - 128 ≡ 0 = omega arith in rw all

push_all-newest :
    (es before : List ClearanceEvent) → push_all es (newest before) ≡ newest (before ++ es)
unfolding push_all
push_all-newest [] before = rw (append-nil before)
push_all-newest (e ∷ es) before =
    rw (push-newest e before, push_all-newest es (before ++ (e ∷ [])), append_assoc)

-- However many events arrive, a queue within its bound then holds the newest 128 of its old
-- content and the new events, in order: only the oldest are dropped.
pub push_all_lem :
    (es queue : List ClearanceEvent)
    → length queue ≤ subscriber_queue_depth
    → push_all es queue ≡ newest (queue ++ es)
push_all_lem es queue h = ap (push_all es) (sym (newest_short queue h)) ∙ push_all-newest es queue

-- `put_nowait` never meets a full queue, and leaves none that is longer than the bound.
pub push_bounded :
    (e : ClearanceEvent) (queue : List ClearanceEvent)
    → length queue ≤ subscriber_queue_depth
    → length (push e queue) ≤ subscriber_queue_depth
unfolding push_all
push_bounded e queue h =
    let pushed : push e queue ≡ newest (queue ++ (e ∷ [])) = push_all_lem (e ∷ []) queue h in
    rw pushed (length-newest (queue ++ (e ∷ [])))

pub receive-All-IsBounded :
    (e : ClearanceEvent) (subs : List Subscriber)
    → All IsBounded subs
    → All IsBounded (map (receive e) subs)
receive-All-IsBounded e [] h = tt
receive-All-IsBounded e (s ∷ subs) h =
    (push_bounded e s.queue h.0, receive-All-IsBounded e subs h.1)
