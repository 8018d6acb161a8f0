-- ===== src/Terminal/Wired/Commands.antt =====
-- cli/terminal_clearance.py: a line that gives a verdict on a number.
use terok_clearance.Common.{
  ℕ, String, true, false, Option, none, some, List, [], ◌∷◌, nat_eq, string_eq, ◌==◌, get, contains,
  strip, lstrip, lower, int_of_text, truthy, if◌then◌else◌, ◌≡◌, refl, ap, ◌∙◌, ◌⊎◌, inl, inr,
  Bool-cases, eq_of_beq, subst,
}
use terok_clearance.Common.Int.{pos}
use terok_clearance.Notifications.{invoke_action}
use terok_clearance.Terminal.{
  Terminal, Reply, usage, no_pending, answer, has_key, pending_id, action_of, decide, parse_number,
  run_command, first_word, handle_input,
}

abbrev pub verdict_commands : List String
verdict_commands = "a" ∷ "allow" ∷ "d" ∷ "deny" ∷ []

-- A line whose first word is a verdict command, in any case, and whose rest reads as a number.
pub record Gives (line cmd : String) (nid : ℕ) : Type 0 where
  pub word : truthy (first_word (strip line)).0 ≡ true
  pub command : lower (first_word (strip line)).0 ≡ cmd
  pub known : contains cmd verdict_commands ≡ true
  pub argument : truthy (lstrip (first_word (strip line)).1) ≡ true
  pub number : int_of_text (lstrip (first_word (strip line)).1) ≡ some (pos nid)

module _ {C : Type 0} (argument : String) (t : Terminal C) where
  abbrev Runs : String → Type 0
  Runs cmd = run_command cmd argument t ≡ (
      if truthy argument
      then parse_number cmd argument (int_of_text argument) t
      else (t, usage cmd))

  run-verdict : (cmd : String) → contains cmd verdict_commands ≡ true → Runs cmd
  unfolding run_command contains
  run-verdict cmd known =
      go (Bool-cases ("a" == cmd)) (Bool-cases ("allow" == cmd)) (Bool-cases ("d" == cmd))
        (Bool-cases ("deny" == cmd))
    where
      go :
          (("a" == cmd) ≡ true) ⊎ (("a" == cmd) ≡ false)
          → (("allow" == cmd) ≡ true) ⊎ (("allow" == cmd) ≡ false)
          → (("d" == cmd) ≡ true) ⊎ (("d" == cmd) ≡ false)
          → (("deny" == cmd) ≡ true) ⊎ (("deny" == cmd) ≡ false)
          → Runs cmd
      go (inl a) allow d deny = subst Runs (eq_of_beq "a" cmd a) refl
      go (inr a) (inl allow) d deny = subst Runs (eq_of_beq "allow" cmd allow) refl
      go (inr a) (inr allow) (inl d) deny = subst Runs (eq_of_beq "d" cmd d) refl
      go (inr a) (inr allow) (inr d) (inl deny) = subst Runs (eq_of_beq "deny" cmd deny) refl
      go (inr a) (inr allow) (inr d) (inr deny) = absurd (cc (rw (a, allow, d, deny) at known))

module _ {C : Type 0} {line cmd : String} {nid : ℕ} (h : Gives line cmd nid) (t : Terminal C) where
  -- The line is a decision on the number.
  pub gives-decide : handle_input line t ≡ decide cmd (pos nid) (pending_id (pos nid) t.pending) t
  unfolding handle_input
  gives-decide =
      rw (h.word, h.command)
        (run-verdict (lstrip (first_word (strip line)).1) t cmd h.known
          ∙ rw (h.argument, h.number) refl)

  pub gives-answer :
      (r : C)
      → has_key nid t.pending ≡ true
      → get nid t.notifier.callbacks ≡ some r
      → (handle_input line t).1 ≡ answer (some (r, action_of cmd))
  unfolding pending_id invoke_action
  gives-answer r listed registered =
      ap (λ x. x.1) gives-decide
      ∙ ap (λ b. (decide cmd (pos nid) (if b then some nid else none) t).1) listed
      ∙ ap (λ (got : Option C). called got) registered
    where
      called : Option C → Reply C
      called got = answer (elim got [ none ↦ none | some found ↦ some (found, action_of cmd) ])

  pub gives-refused :
      has_key nid t.pending ≡ false → handle_input line t ≡ (t, no_pending (pos nid))
  unfolding pending_id
  gives-refused unlisted = gives-decide ∙ rw unlisted refl
