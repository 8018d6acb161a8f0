-- ===== src/Terminal/Answers.antt =====
-- cli/terminal_clearance.py: which verdicts the terminal gives.
use terok_clearance.Common.{
  ℕ, String, Bool, true, false, Option, none, some, [], ◌∷◌, nat_eq, string_eq, get,
  get-remove_self, contains, strip, lstrip, int_of_text, truthy, if◌then◌else◌, ◌≡◌, refl, arith,
  inl, inr, Bool-cases, subst,
}
use terok_clearance.Common.Int.{ℤ, pos, negsuc}
use terok_clearance.Domain.Events.{verdict_actions}
use terok_clearance.Notifications.{invoke_action}
use terok_clearance.Terminal.{
  Terminal, Reply, nothing, stopping, listing, help, unknown_command, usage, invalid_number,
  no_pending, answer, has_key, pending_id, action_of, answering, decide, parse_number, run_command,
  first_word, lower, handle_input,
}

pub known_action : (cmd : String) → contains (action_of cmd) verdict_actions ≡ true
unfolding contains
known_action cmd = elim (Bool-cases (contains cmd ("a" ∷ "allow" ∷ []))) [
  | inl allows ↦ rw allows refl
  | inr denies ↦ rw denies refl
]

module _ {C : Type 0} where
  -- The request is listed and the callback registered for it, the action is of the vocabulary, and the
  -- callback is not there to be called again.
  pub record IsListed (callback : C) (action : String) (before after : Terminal C) : Type 0 where
    pub nid : ℕ
    pub listed : has_key nid before.pending ≡ true
    pub registered : get nid before.notifier.callbacks ≡ some callback
    pub known : contains action verdict_actions ≡ true
    pub spent : get nid after.notifier.callbacks ≡ none

  abbrev Sound : Terminal C → Terminal C × Reply C → Type 0
  Sound t (after, answer (some (callback, action))) = IsListed callback action t after
  Sound t (after, _) = Unit

  answering-Sound :
      (nid : ℕ) (cmd : String) (t : Terminal C)
      → has_key nid t.pending ≡ true
      → Sound t (answering nid (action_of cmd) t)
  unfolding invoke_action
  answering-Sound nid cmd t listed = go (get nid t.notifier.callbacks) refl
    where
      after : Terminal C
      after = (answering nid (action_of cmd) t).0

      go :
          (got : Option C)
          → get nid t.notifier.callbacks ≡ got
          → Sound t (
            after,
            answer (elim got [ none ↦ none | some callback ↦ some (callback, action_of cmd) ]),
          )
      go none found = tt
      go (some callback) found = record {
        nid = nid;
        listed = listed;
        registered = found;
        known = known_action cmd;
        spent = get-remove_self nid t.notifier.callbacks;
      }

  decide-Sound :
      (cmd : String) (number : ℤ) (t : Terminal C)
      → Sound t (decide cmd number (pending_id number t.pending) t)
  unfolding pending_id
  decide-Sound cmd (negsuc n) t = tt
  decide-Sound cmd (pos nid) t = go (has_key nid t.pending) refl
    where
      go :
          (listed : Bool)
          → has_key nid t.pending ≡ listed
          → Sound t (decide cmd (pos nid) (if listed then some nid else none) t)
      go true listed = answering-Sound nid cmd t listed
      go false listed = tt

  parse-Sound :
      (cmd shown : String) (number : Option ℤ) (t : Terminal C)
      → Sound t (parse_number cmd shown number t)
  parse-Sound cmd shown none t = tt
  parse-Sound cmd shown (some number) t = decide-Sound cmd number t

  if-Sound :
      (b : Bool) (t : Terminal C) (x y : Terminal C × Reply C)
      → Sound t x
      → Sound t y
      → Sound t (if b then x else y)
  if-Sound true t x y h k = h
  if-Sound false t x y h k = k

  run-Sound : (cmd argument : String) (t : Terminal C) → Sound t (run_command cmd argument t)
  unfolding run_command
  run-Sound cmd argument t =
      if-Sound (contains cmd ("q" ∷ "quit" ∷ "exit" ∷ [])) t (record t { stop = true }, stopping) _
        tt
        (if-Sound (contains cmd ("l" ∷ "list" ∷ [])) t (t, listing) _ tt
          (if-Sound (contains cmd ("h" ∷ "help" ∷ "?" ∷ [])) t (t, help) _ tt
            (if-Sound (contains cmd ("a" ∷ "allow" ∷ "d" ∷ "deny" ∷ [])) t
              (if truthy argument then numbered else (t, usage cmd)) (t, unknown_command cmd)
              (if-Sound (truthy argument) t numbered (t, usage cmd)
                (parse-Sound cmd argument (int_of_text argument) t) tt)
              tt)))
    where
      numbered : Terminal C × Reply C
      numbered = parse_number cmd argument (int_of_text argument) t

  -- Whatever line the operator enters, a verdict is given only for a request that is listed, by the callback
  -- that is registered for it and with an action of the vocabulary; and it is given once, since the callback is
  -- then gone.
  pub answer-IsListed :
      (line : String) (t : Terminal C) {callback : C} {action : String}
      → (handle_input line t).1 ≡ answer (some (callback, action))
      → IsListed callback action t (handle_input line t).0
  answer-IsListed line t {callback} {action} h = go (handle_input line t) sound h
    where
      sound : Sound t (handle_input line t)
      sound =
          unfold handle_input in
          if-Sound (truthy (first_word (strip line)).0) t
            (run_command (lower (first_word (strip line)).0) (lstrip (first_word (strip line)).1) t)
            (t, nothing)
            (run-Sound (lower (first_word (strip line)).0) (lstrip (first_word (strip line)).1) t)
            tt

      go :
          (r : Terminal C × Reply C)
          → Sound t r
          → r.1 ≡ answer (some (callback, action))
          → IsListed callback action t r.0
      go (after, answer (some (c, a))) s e =
          let same_c : c ≡ callback = ground arith in
          let same_a : a ≡ action = ground arith in
          subst (λ x. IsListed x action t after) same_c (subst (λ x. IsListed c x t after) same_a s)
      go (after, answer none) s e = absurd (ground arith)
      go (after, nothing) s e = absurd (ground arith)
      go (after, stopping) s e = absurd (ground arith)
      go (after, listing) s e = absurd (ground arith)
      go (after, help) s e = absurd (ground arith)
      go (after, unknown_command c) s e = absurd (ground arith)
      go (after, usage c) s e = absurd (ground arith)
      go (after, invalid_number c) s e = absurd (ground arith)
      go (after, no_pending z) s e = absurd (ground arith)
