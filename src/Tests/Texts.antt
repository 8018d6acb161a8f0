-- ===== src/Tests/Texts.antt =====
-- The text rule and the queues at concrete inputs.
use Prim.Native.Nat.{min}
use mathlib.Core.Option
use terok_clearance.Common.{
  String, false, [], ◌∷◌, ◌≡◌, inl, refl, string_eq, arith, text_length, char_at?, ok,
}
use terok_clearance.Domain.Events.{ClearanceEvent, bare_event}
use terok_clearance.Wire.Sanitize.{sanitize, clean, clean_char, is_printable}
use terok_clearance.Wire.Sanitize.Output.{sanitize_lem, IsPrintable, kept_or_space}
use terok_clearance.Common.Int.{pos}
use terok_clearance.Hub.Payload.{Fields, end, field, text, item, get_field, str_of}
use terok_clearance.Hub.Translate.{translate_reader_event, coerce_dossier}
use terok_clearance.Hub.Relay.Queue.{push_all, newest, push_all_lem}
use terok_clearance.Tests.{c1}

-- A line feed, as an attacker of the terminal would send it.
abbrev forged : String
forged = "ok\nmail"

forged_line : sanitize 256 forged ≡ "ok mail"
unfolding sanitize clean clean_char is_printable
forged_line = refl

forged_cut : sanitize 5 forged ≡ "ok..."
unfolding sanitize clean clean_char is_printable
forged_cut = refl

abbrev down : ClearanceEvent
down = record {
  type = "shield_down";
  container = "a b";
  request_id = "";
  dest = "";
  port = pos 0;
  proto = pos 0;
  domain = "";
  action = "";
  ok = false;
  reason = "";
  dossier = [];
}

abbrev raw_down : Fields
raw_down = field "type" (text "shield_down") (field "container" (text "a\nb") end)

down_translated : translate_reader_event "shield_down" raw_down ≡ ok down
unfolding translate_reader_event item get_field str_of sanitize clean clean_char is_printable
    coerce_dossier bare_event
down_translated = refl

abbrev lifted : ClearanceEvent
lifted = bare_event "shield_down" c1

push_all_lem_example :
    push_all (lifted ∷ lifted ∷ []) (lifted ∷ []) ≡ newest (lifted ∷ lifted ∷ lifted ∷ [])
push_all_lem_example = push_all_lem (lifted ∷ lifted ∷ []) (lifted ∷ []) (omega arith)

sanitize_lem_example :
    IsPrintable (sanitize 6 forged)
    × (text_length (sanitize 6 forged) ≡ min 6 (text_length forged))
    × (char_at? (sanitize 6 forged) 2 ≡ Option.map kept_or_space (char_at? forged 2))
sanitize_lem_example = sanitize_lem 6 forged 2 (inl (omega arith))
