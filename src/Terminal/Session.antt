-- ===== src/Terminal/Session.antt =====
-- cli/terminal_clearance.py: the list of pending requests, and the loop that reads the terminal.
use terok_clearance.Common.{
  ℕ, String, true, List, [], ◌∷◌, ◌++◌, Dict, concat, str_of_ℕ, truthy, if◌then◌else◌,
}
use terok_clearance.Notifications.{Notification}
use terok_clearance.Terminal.{Terminal, Reply, handle_input}

-- The line of a pending request.
abbrev pub pending_line : ℕ → Notification → String
pending_line nid n =
    concat "  [" (concat (str_of_ℕ nid) (concat "] " (concat n.summary (concat "  " n.body))))

unfoldable pub pending_lines : Dict ℕ Notification → List String
unfolding str_of_ℕ
pending_lines [] = []
pending_lines ((nid, n) ∷ pending) = pending_line nid n ∷ pending_lines pending

-- `_show_pending`: the lines that are printed
unfoldable pub show_pending : Dict ℕ Notification → List String
unfolding pending_lines
show_pending [] = "  (no pending requests)" ∷ []
show_pending (entry ∷ pending) = pending_lines (entry ∷ pending)

-- What a read of a line comes to: its text, empty at the end of the input, or an `EOFError` or an
-- `OSError`.
pub data Read : Type 0 where
  read : String → Read
  failed : Read

module _ {C : Type 0} where
  -- A round of the loop: the terminal, and the reply to a line that was handled.
  unfoldable pub read_line : Read → Terminal C → Terminal C × List (Reply C)
  unfolding handle_input
  read_line failed t = (record t { stop = true }, [])
  read_line (read line) t =
      let (next, reply) = handle_input line t in
      if truthy line then (next, reply ∷ []) else (record t { stop = true }, [])

  -- `_read_stdin`, for the reads that come to an end while it runs
  unfoldable pub read_stdin : List Read → Terminal C → Terminal C × List (Reply C)
  unfolding read_line
  read_stdin [] t = (t, [])
  read_stdin (r ∷ reads) t =
      let (next, replies) = read_line r t in
      let (last, more) = read_stdin reads next in
      if t.stop then (t, []) else (last, replies ++ more)
