-- ===== src/Automation/Values.antt =====
-- internal/core/automation_engine.go: the helpers that read a node's configuration, and the
-- conditions. How Go writes, reads and compares a float64 is a parameter.
use sampmail.Prelude.{
  Bool, true, false, not, none, some, [], ◌∷◌, Text, codes, ◌==◌, text_eq, if◌then◌else◌,
}
use sampmail.Prelude.Map
use sampmail.Prelude.Int.{ℤ, pos, negsuc}
use Prim.Native.Nat.{suc}
use mathlib.Core.List.{reverse}
use sampmail.Prelude.Strings.{has_prefix, contains, decimal}
use sampmail.Automation.{Value, nil, text, float, int, bool, JsonMap, Contact, is_one_of}

-- %v and %f of a float64, its conversions, and its comparisons.
pub record Floats (F : Type 0) : Type 0 where
  pub print : F → Text
  pub scan : Text → F
  pub of_int : ℤ → F
  pub truncate : F → ℤ
  pub zero_float : F
  pub less : F → F → Bool
  pub less_equal : F → F → Bool

-- %d
abbrev pub print_int : ℤ → Text
print_int (pos n) = decimal n
print_int (negsuc n) = b'-' ∷ decimal (suc n)

-- strings.HasSuffix
abbrev pub has_suffix : Text → Text → Bool
has_suffix s t = has_prefix (reverse s) (reverse t)

module _ {F : Type 0} (fl : Floats F) where
  -- fmt.Sprint
  unfoldable pub sprint : Value F → Text
  sprint nil = codes "<nil>"
  sprint (text s) = s
  sprint (float f) = fl.print f
  sprint (int z) = print_int z
  sprint (bool true) = codes "true"
  sprint (bool false) = codes "false"

  unfoldable pub to_float : Value F → F
  to_float (float f) = f
  to_float (int z) = fl.of_int z
  to_float (text s) = fl.scan s
  to_float nil = fl.zero_float
  to_float (bool b) = fl.zero_float

  unfoldable pub get_string : JsonMap F → Text → Text
  get_string m key = elim (Map.lookup key m) [ none ↦ [] | some v ↦ sprint v ]

  int_of : Value F → ℤ
  int_of (float f) = fl.truncate f
  int_of (int z) = z
  int_of nil = pos 0
  int_of (text s) = pos 0
  int_of (bool b) = pos 0

  unfoldable pub get_int : JsonMap F → Text → ℤ
  unfolding int_of
  get_int m key = elim (Map.lookup key m) [ none ↦ pos 0 | some v ↦ int_of v ]

  -- m[key], which is nil where the key is missing.
  unfoldable pub get_value : JsonMap F → Text → Value F
  get_value m key = elim (Map.lookup key m) [ none ↦ nil | some v ↦ v ]

  -- The field of a contact that a condition names.
  unfoldable pub field_of : Contact F → Text → Value F
  unfolding get_value
  field_of c field =
      if field == codes "email"
      then text c.email
      else if field == codes "first_name"
      then text c.first_name
      else if field == codes "lead_score"
      then int c.lead_score
      else if field == codes "total_opens"
      then int c.total_opens
      else get_value c.custom_fields field

  unfoldable pub evaluate_condition : Value F → Text → Value F → Bool
  unfolding sprint to_float
  evaluate_condition field operator value =
      if is_one_of operator (codes "equals" ∷ codes "eq" ∷ codes "==" ∷ [])
      then sprint field == sprint value
      else if is_one_of operator (codes "not_equals" ∷ codes "ne" ∷ codes "!=" ∷ [])
      then not (sprint field == sprint value)
      else if operator == codes "contains"
      then contains (sprint field) (sprint value)
      else if operator == codes "not_contains"
      then not (contains (sprint field) (sprint value))
      else if operator == codes "starts_with"
      then has_prefix (sprint field) (sprint value)
      else if operator == codes "ends_with"
      then has_suffix (sprint field) (sprint value)
      else if operator == codes "is_empty"
      then sprint field == []
      else if operator == codes "is_not_empty"
      then not (sprint field == [])
      else if is_one_of operator (codes "greater_than" ∷ codes "gt" ∷ codes ">" ∷ [])
      then fl.less (to_float value) (to_float field)
      else if is_one_of operator (codes "less_than" ∷ codes "lt" ∷ codes "<" ∷ [])
      then fl.less (to_float field) (to_float value)
      else if is_one_of operator (codes "greater_equal" ∷ codes "gte" ∷ codes ">=" ∷ [])
      then fl.less_equal (to_float value) (to_float field)
      else if is_one_of operator (codes "less_equal" ∷ codes "lte" ∷ codes "<=" ∷ [])
      then fl.less_equal (to_float field) (to_float value)
      else false

abbrev pub branch_name : Bool → Text
branch_name true = codes "yes"
branch_name false = codes "no"
