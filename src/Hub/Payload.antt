-- ===== src/Hub/Payload.antt =====
-- The JSON that a reader sends, as `json.loads` hands it to the hub, and what Python's `str` and
-- `int` make of a value.
use terok_clearance.Common.{
  String, Bool, true, false, Option, none, some, [], ◌∷◌, Dict, Result, ok, raise, PyError,
  key_error, value_error, type_error, overflow_error, ◌==◌, string_eq, if◌then◌else◌, str_of_ℤ,
  int_of_text,
}
use terok_clearance.Common.Int.{ℤ, pos}

-- A float is kept as its text and what `int` gives for it; an array and an object are kept with
-- the text that `str` gives for them, which for an object stands beside its entries.
pub data FloatValue : Type 0 where
  finite : ℤ → FloatValue
  infinite not_a_number : FloatValue

mutual
  pub data Json : Type 0 where
    null : Json
    bool : Bool → Json
    int : ℤ → Json
    float : String → FloatValue → Json
    text : String → Json
    array : String → Json
    object : String → Fields → Json

  pub data Fields : Type 0 where
    end : Fields
    field : String → Json → Fields → Fields

-- `raw.get(key)`
unfoldable pub get_field : String → Fields → Option Json
get_field key end = none
get_field key (field k v rest) = if k == key then some v else get_field key rest

-- `raw[key]`
unfoldable pub item : String → Fields → Result PyError Json
unfolding get_field
item key raw = elim (get_field key raw) [ none ↦ raise key_error | some v ↦ ok v ]

-- `str(value)`
unfoldable pub str_of : Json → String
str_of null = "None"
str_of (bool true) = "True"
str_of (bool false) = "False"
str_of (int z) = str_of_ℤ z
str_of (float shown value) = shown
str_of (text s) = s
str_of (array shown) = shown
str_of (object shown fields) = shown

abbrev pub or_value_error : Option ℤ → Result PyError ℤ
or_value_error none = raise value_error
or_value_error (some z) = ok z

-- `int(value)`
unfoldable pub int_of : Json → Result PyError ℤ
int_of null = raise type_error
int_of (bool true) = ok (pos 1)
int_of (bool false) = ok (pos 0)
int_of (int z) = ok z
int_of (float shown (finite z)) = ok z
int_of (float shown infinite) = raise overflow_error
int_of (float shown not_a_number) = raise value_error
int_of (text s) = or_value_error (int_of_text s)
int_of (array shown) = raise type_error
int_of (object shown fields) = raise type_error

-- `{str(k): str(v) for k, v in raw.items()}`, over a dict whose keys are texts
unfoldable pub texts : Fields → Dict String String
unfolding str_of
texts end = []
texts (field k v rest) = (k, str_of v) ∷ texts rest
