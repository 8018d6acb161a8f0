-- ===== src/Terminal.antt =====
-- cli/terminal_clearance.py: the operator's terminal. What is printed stands for itself as a reply.
pub mod Answers
pub mod Session
pub mod Running
pub mod Wired
use terok_clearance.Common.{
  lower, lower_char, ℕ, ◌+◌, String, Char, code, Bool, true, false, ◌&&◌, Option, none, some, List,
  [], ◌∷◌, Dict, nat_eq, string_eq, ◌==◌, get, put, remove, contains, strip, lstrip, is_space,
  int_of_text, leb, truthy, if◌then◌else◌,
}
use terok_clearance.Common.Int.{ℤ, pos, negsuc}
use terok_clearance.Common.Utf8.{chr}
use terok_clearance.Notifications.{Notification, CallbackNotifier, invoke_action}

pub record Terminal (C : Type 0) : Type 0 where
  pub pending : Dict ℕ Notification
  pub notifier : CallbackNotifier C
  pub stop : Bool

-- The lines that the terminal prints, and what it does besides.
pub data Reply (C : Type 0) : Type 0 where
  nothing stopping listing help : Reply C
  unknown_command usage : String → Reply C
  invalid_number : String → Reply C
  no_pending : ℤ → Reply C
  -- the callback that is called, if there is one, with the action
  answer : Option (C × String) → Reply C

unfoldable pub has_key : ℕ → Dict ℕ Notification → Bool
has_key nid pending = elim (get nid pending) [ none ↦ false | some n ↦ true ]

module _ {C : Type 0} where
  -- `_on_notify`
  unfoldable pub on_notify : Notification → Terminal C → Terminal C
  unfolding has_key
  on_notify n t =
      if truthy_id n.replaces_id && has_key n.replaces_id t.pending
      then record t { pending = remove n.replaces_id t.pending }
      else if has_actions n.actions
      then record t { pending = put n.nid n t.pending }
      else t
    where
      truthy_id : ℕ → Bool
      truthy_id i = if i == 0 then false else true

      has_actions : List (String × String) → Bool
      has_actions [] = false
      has_actions (a ∷ rest) = true

-- A text up to its first white space, and what follows that.
unfoldable pub first_word : String → String × String
unfolding is_space
first_word String.[] = (String.[], String.[])
first_word (String.◌∷◌ c s) =
    let (word, rest) = first_word s in
    if is_space c then (String.[], s) else (String.◌∷◌ c word, rest)

-- The request that a number names, if it is pending.
unfoldable pub pending_id : ℤ → Dict ℕ Notification → Option ℕ
unfolding has_key
pending_id (pos nid) pending = if has_key nid pending then some nid else none
pending_id (negsuc n) pending = none

abbrev pub action_of : String → String
action_of cmd = if contains cmd ("a" ∷ "allow" ∷ []) then "allow" else "deny"

module _ {C : Type 0} where
  abbrev pub answering : ℕ → String → Terminal C → Terminal C × Reply C
  answering nid action t =
      let (notifier, called) = invoke_action nid action t.notifier in
      (record t { notifier = notifier }, answer called)

  abbrev pub decide : String → ℤ → Option ℕ → Terminal C → Terminal C × Reply C
  decide cmd number none t = (t, no_pending number)
  decide cmd number (some nid) t = answering nid (action_of cmd) t

  abbrev pub parse_number : String → String → Option ℤ → Terminal C → Terminal C × Reply C
  parse_number cmd shown none t = (t, invalid_number shown)
  parse_number cmd shown (some number) t = decide cmd number (pending_id number t.pending) t

  -- The command, with the rest of its line.
  unfoldable pub run_command : String → String → Terminal C → Terminal C × Reply C
  unfolding pending_id
  run_command cmd argument t =
      if contains cmd ("q" ∷ "quit" ∷ "exit" ∷ [])
      then (record t { stop = true }, stopping)
      else if contains cmd ("l" ∷ "list" ∷ [])
      then (t, listing)
      else if contains cmd ("h" ∷ "help" ∷ "?" ∷ [])
      then (t, help)
      else if contains cmd ("a" ∷ "allow" ∷ "d" ∷ "deny" ∷ [])
      then if truthy argument
        then parse_number cmd argument (int_of_text argument) t
        else (t, usage cmd)
      else (t, unknown_command cmd)

  -- `_handle_input`
  unfoldable pub handle_input : String → Terminal C → Terminal C × Reply C
  unfolding first_word lower run_command
  handle_input line t =
      let (word, rest) = first_word (strip line) in
      if truthy word then run_command (lower word) (lstrip rest) t else (t, nothing)
