-- ===== src/Notifications/Desktop.antt =====
-- notifications/desktop.py: the texts that are sent to the desktop, and what a renderer of Pango
-- markup shows for them.
pub mod Markup
use terok_clearance.Common.{
  ℕ, zero, suc, Char, code, String, Bool, true, false, ◌&&◌, ◌||◌, Option, none, some, nat_eq, ◌==◌,
  truthy, or_else, concat, nat_beq, List, [], ◌∷◌, if◌then◌else◌,
}

-- `text.replace(raw, escaped)` of one character
unfoldable pub replace_char : ℕ → String → String → String
replace_char raw escaped String.[] = String.[]
replace_char raw escaped (String.◌∷◌ c s) =
    let rest = replace_char raw escaped s in
    if nat_beq (code c) raw then concat escaped rest else String.◌∷◌ c rest

-- `_PANGO_ESCAPES`
abbrev pub pango_escapes : List (ℕ × String)
pango_escapes = (b'&', "&amp;") ∷ (b'<', "&lt;") ∷ (b'>', "&gt;") ∷ []

unfoldable pub replace_all : List (ℕ × String) → String → String
unfolding replace_char
replace_all [] text = text
replace_all ((raw, escaped) ∷ escapes) text = replace_all escapes (replace_char raw escaped text)

-- `_pango_escape`
unfoldable pub pango_escape : String → String
unfolding replace_all
pango_escape text = replace_all pango_escapes text

-- `s.split(":")` without its empty parts; the first text is the part so far.
unfoldable pub split_colons : String → String → List String
split_colons part String.[] = if truthy part then part ∷ [] else []
split_colons part (String.◌∷◌ c s) =
    let rest = split_colons (if code c == b':' then "" else concat part (String.◌∷◌ c "")) s in
    if code c == b':' && truthy part then part ∷ rest else rest

abbrev pub set_or : Option String → String → String
set_or none default = default
set_or (some value) default = or_else value default

-- `_icon_theme_search_dirs`, from `$XDG_DATA_HOME`, its default and `$XDG_DATA_DIRS`
unfoldable pub icon_theme_search_dirs : Option String → String → Option String → List String
unfolding split_colons
icon_theme_search_dirs home default_home dirs =
    set_or home default_home ∷ split_colons "" (set_or dirs "/usr/local/share:/usr/share")

-- `_SYMBOLIC_ICON_NAME`
abbrev pub symbolic_icon_name : String
symbolic_icon_name = "terok-symbolic"

unfoldable pub any_dir : (String → Bool) → List String → Bool
any_dir has_icon [] = false
any_dir has_icon (dir ∷ dirs) = has_icon dir || any_dir has_icon dirs

-- `_default_app_icon`: `_RESOLVED_ICON_NAME` after the call, and the icon. The arguments are the
-- search directories, which of them hold the icon, and the address of the logo if its file is there.
unfoldable pub default_app_icon :
    List String → (String → Bool) → Option String → Option String → Option String × String
unfolding any_dir
default_app_icon dirs has_icon logo (some name) = (some name, name)
default_app_icon dirs has_icon logo none =
    if any_dir has_icon dirs
    then (some symbolic_icon_name, symbolic_icon_name)
    else (none, set_or logo "")
