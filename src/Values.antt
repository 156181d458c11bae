-- ===== src/Values.antt =====
-- The values of a Python dictionary of type Dict[str, Any], as action payloads, contexts and audit
-- payloads hold them. Floats do not occur in them.
use ledger_sdk.Prelude.{
  ℕ, zero, suc, String, ℤ, pos, Bool, true, false, Option, none, some, ◌==◌, nonempty,
  if◌then◌else◌,
}

mutual
  pub data Value : Type 0 where
    null : Value
    boolean : Bool → Value
    number : ℤ → Value
    text : String → Value
    array : Values → Value
    object : Fields → Value

  pub data Values : Type 0 where
    nil : Values
    cons : Value → Values → Values

  pub data Fields : Type 0 where
    end : Fields
    field : String → Value → Fields → Fields

-- `d.get(key)`
unfoldable pub get : String → Fields → Option Value
get k end = none
get k (field j v d) = if j == k then some v else get k d

-- `list(d.keys())`
unfoldable pub keys : Fields → Values
keys end = nil
keys (field k v d) = cons (text k) (keys d)

-- `bool(v)`
unfoldable pub is_truthy : Value → Bool
is_truthy null = false
is_truthy (boolean b) = b
is_truthy (number (pos zero)) = false
is_truthy (number n) = true
is_truthy (text s) = nonempty s
is_truthy (array nil) = false
is_truthy (array (cons v vs)) = true
is_truthy (object end) = false
is_truthy (object (field k v d)) = true

-- `type(v).__name__`
unfoldable pub type_name : Value → String
type_name null = "NoneType"
type_name (boolean b) = "bool"
type_name (number n) = "int"
type_name (text s) = "str"
type_name (array vs) = "list"
type_name (object d) = "dict"

-- A text that may be None, as a value.
unfoldable pub of_option : Option String → Value
of_option none = null
of_option (some s) = text s

-- `d.get(key)` where the source stores the answer as an optional text.
unfoldable pub get_text : String → Fields → Option String
unfolding get
get_text k d = elim (get k d) [ some (text s) ↦ some s | _ ↦ none ]

-- `s[:n]`, by characters.
unfoldable pub take_chars : ℕ → String → String
take_chars zero s = ""
take_chars (suc n) String.[] = ""
take_chars (suc n) (String.◌∷◌ c s) = String.◌∷◌ c (take_chars n s)
