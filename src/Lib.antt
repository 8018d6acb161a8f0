-- ===== src/Lib.antt =====
-- terok-clearance: the hub between the readers of container firewalls, which report blocked
-- connections, and the clients on which an operator allows or denies them.
--
-- The parts of the program and how they interact. A reader sends JSON objects, one a line, to the
-- hub's ingester. The hub translates each into an event (_translate_reader_event), sanitises its texts,
-- stamps it with its own container where it serves one, drops it if it is a prompt of a muted
-- container, records the (container, target) that its request id stands for, and puts it in the
-- bounded queue of every subscriber. A client's Verdict call must name a recorded request id with
-- its container and target; the hub then has the verdict helper run shield, and sends the outcome
-- to every subscriber. SetMute and Mutes govern the mute set; a background task expires old
-- bindings. On the operator's side MultiSocketSubscriber keeps an EventSubscriber for the socket of
-- every hub; an EventSubscriber turns events into notifications and the press of a button into a
-- Verdict call; a notifier shows them on the desktop or on a terminal.
--
-- Which file models which part:
--   Common/...          Python's dicts, sets, strings, integers and exceptions, and lemmas on them
--   Domain/Events       src/terok_clearance/domain/events.py
--   Wire/Errors         src/terok_clearance/wire/errors.py
--   Wire/Sanitize       src/terok_clearance/wire/sanitize.py; what comes out in Sanitize/Output
--   Hub/Payload         JSON values as json.loads gives them, with str() and int() of each
--   Hub/Translate       src/terok_clearance/hub/server.py: _translate_reader_event, _coerce_dossier
--   Hub/State           src/terok_clearance/hub/server.py: the attributes of ClearanceHub
--   Hub/Construct       src/terok_clearance/hub/server.py: __init__
--   Hub/Relay           src/terok_clearance/hub/server.py: _relay_reader_event,
--                       _update_live_verdicts, _fan_out
--   Hub/Cleanup         src/terok_clearance/hub/server.py: _cleanup_stale_verdicts
--   Hub/Mute            src/terok_clearance/hub/server.py: _mute_key, _seed_mute, _set_mute, _mutes
--   Hub/Verdict         src/terok_clearance/hub/server.py: _apply_verdict
--   Hub/Subscription    src/terok_clearance/hub/server.py: _subscribe
--   Hub/Lifecycle       src/terok_clearance/hub/server.py: start, stop
--   Hub/Ttl             src/terok_clearance/hub/server.py: parse_verdict_ttl,
--                       _read_verdict_ttl_from_config
--   Hub/Serve           src/terok_clearance/hub/server.py: the interface of start, with the verdict client
--                       and the helper behind it; serve
--   Hub/Ingester        src/terok_clearance/hub/ingester.py: _handle_client, _dispatch; start, stop
--                       and _peer_uid_matches_ours in Ingester/Listener
--   Verdict/Client      src/terok_clearance/verdict/client.py: VerdictClient; calls of it that overlap
--                       in Client/Overlap
--   Verdict/Shield      src/terok_clearance/verdict/server.py: run_shield;
--                       src/terok_clearance/verdict/interface.py: Apply
--   Verdict/Server      src/terok_clearance/verdict/server.py: find_shield_binary, VerdictServer
--   Wire/Interface      src/terok_clearance/wire/interface.py: Clearance1Interface
--   Wire/Socket         src/terok_clearance/wire/socket.py: ensure_private_parent, bind_hardened
--   Wire/Paths          src/terok_clearance/wire/socket.py, verdict/socket.py, hub/ingester.py and
--                       client/subscriber.py: the default paths of sockets, as POSIX paths
--   Client/Connection   src/terok_clearance/client/client.py: ClearanceClient, _connect, start,
--                       stop
--   Client/Rpc          src/terok_clearance/client/client.py: verdict, set_mute, mutes
--   Client/OneShot      src/terok_clearance/client/client.py: set_container_mute, container_mutes
--   Client/Stream       src/terok_clearance/client/client.py: _run_stream
--   Client/Rendering    src/terok_clearance/client/subscriber.py: _identity_label, _blocked_body
--   Client/Popups       src/terok_clearance/client/subscriber.py: what EventSubscriber posts
--   Client/Pending      src/terok_clearance/client/subscriber.py: the state of EventSubscriber
--   Client/Subscriber   src/terok_clearance/client/subscriber.py: EventSubscriber; _on_event in
--                       Subscriber/Dispatch, its event loop in Subscriber/Loop
--   Client/Sockets      src/terok_clearance/client/subscriber.py: MultiSocketSubscriber; how it
--                       addresses a container in Sockets/Addressed, and a mute from there to
--                       the hub in Sockets/Muting
--   Notifications       src/terok_clearance/notifications/callback.py: CallbackNotifier; its hooks in
--                       Notifications/Hooks
--   Notifications/Desktop  src/terok_clearance/notifications/desktop.py: _pango_escape,
--                       _default_app_icon
--   Notifications/Dbus  src/terok_clearance/notifications/desktop.py: DbusNotifier; Dbus/Factory:
--                       src/terok_clearance/notifications/factory.py; Dbus/Verb:
--                       src/terok_clearance/cli/verbs/notify.py
--   Terminal            src/terok_clearance/cli/terminal_clearance.py: _on_notify, _handle_input;
--                       _show_pending and _read_stdin in Terminal/Session, run in Terminal/Running
--   Hub/Invariant, Hub/Preserved   the well-formedness of a hub and its preservation
--   Hub/System          the hub among its callers: every order of their actions; the kinds of events
--                       that leave it in System/Kinds
--   Hub/Desk            what the hub promises of open requests and verdicts in flight, and that the
--                       hub keeps it
--   Terminal/Wired      a subscriber whose notifier is the terminal's
--   Tests               runs of the model, and the theorems at concrete inputs
--
-- How state and operations correspond. The record Hub has a field for each attribute of
-- ClearanceHub that its own code reads or writes, under the attribute's name without the leading
-- underscore; the socket paths, the verdict client and the socket context are left out. A method is
-- a function that takes the hub and returns the new hub with the method's result; exceptions are
-- values of Result. Only _apply_verdict is divided, at its one await: begin_verdict runs up to it,
-- finish_verdict from it on, and between the two any other action may run. The call of the helper
-- may also end by an exception or be cancelled, after which nothing of _apply_verdict runs: that is
-- the action abandon. The wait of a subscriber for its next event lies between two actions. The
-- start and the stop of a hub are taken as one action each, though they wait for sockets. In
-- Hub/System an Action is one such atomic piece, a schedule is any list of actions, and started is a
-- hub with nothing in flight. The log of a System records what was fanned out; the
-- hub never reads it.
--
-- EventSubscriber is divided at every await. A Coroutine is a background task that has not begun, a
-- Rest is what is left of one at an await, and a Turn is the state after a segment with the call that
-- it waits for. In Subscriber/Loop an Action begins or wakes a task, hands over an event, answers the
-- handler of the last one, presses a button, or is one of the two parts of stop; an event is handed
-- over only when the last one's handler is done, as the client awaits it, and tasks run in any order.
-- The calls and the hooks of an EventLoop are a record that the subscriber never reads, and so are the
-- counted and the released children of MultiSocketSubscriber, the dropped buses of DbusNotifier, the
-- opened connections of an Overlap and the cancelled tasks of EventIngester. In Verdict/Client/Overlap an
-- Action begins a call, hands it the lock, a connection or a reply, or cancels it, in any order.
--
-- Modelling choices. Clock readings and TTLs are natural numbers of ticks; a TTL that
-- is parsed is a decimal fraction of seconds, without the rounding of float. time.monotonic() is an
-- argument of the operations that read it, and nothing is assumed of its order. Dicts are
-- association lists in insertion order; sets are lists of their members. Texts are sequences of
-- Unicode scalar values, so a lone surrogate, which json.loads can make, is left out. int() of a
-- text reads ASCII digits with an optional sign, underscores between digits and surrounding white
-- space, and refuses more than 4300 digits as CPython does; other Unicode digits are left out. A
-- float, an array and an object carry the text that str() gives for them. sorted() compares texts
-- by code points. The answer of the verdict helper is an argument, so every answer is covered;
-- in Hub/Serve it is what VerdictClient.apply comes to, by what its two attempts meet. What
-- a reader's line, a bind, a connection attempt and a call on a connection come to is an argument
-- too. VerdictClient is modelled for one call at a time, and in Verdict/Client/Overlap for calls that
-- overlap. The stream of ClearanceClient runs for any list of rounds, and a cancelled one ends with
-- the list. A scan of MultiSocketSubscriber is
-- one action, and its children, which each touch their own path, are taken one after another; the
-- interval between scans is in milliseconds. lower(), title() and capitalize() are of ASCII letters: no
-- other letter's lower case is in a command of the terminal, and a verdict's action is allow or
-- deny. A value in the body of a D-Bus signal is one of those that JSON has. Every loop of the modelled code is over
-- a list; the only fuel is in the decimal digits of n, which are at most the n + 1 that it allows.
--
-- Not modelled: logging; the varlink protocol; D-Bus itself; the matching of a glob against the
-- file system; a reader whose handler begins while the ingester stops; the registration of the commands, signal handlers and other glue of the command line.
pub mod Common
pub mod Domain
pub mod Wire
pub mod Hub
pub mod Verdict
pub mod Client
pub mod Notifications
pub mod Terminal
pub mod Tests
