-- ===== src/Value.antt =====
-- The values that JSON bodies, skill contexts and skill parameters hold (`Any` in the source).
-- Numbers are integers: JSON's fractions are left out.
use whatsapp_sales_saas_temp.Prelude.{
  Bool, List, Option, Text, [], ap, decimal, false, if◌then◌else◌, lit, negsuc, none, pos, refl,
  some, true, zero, ℤ, ◌++◌, ◌+◌, ◌==◌, ◌∷◌, ◌≡◌,
}
use whatsapp_sales_saas_temp.Result.{Result, attribute_error, err, ok, type_error}

mutual
  pub data Value : Type 0 where
    null : Value
    bool : Bool → Value
    int : ℤ → Value
    str : Text → Value
    array : Values → Value
    object : Fields → Value

  pub data Values : Type 0 where
    nil : Values
    cons : Value → Values → Values

  pub data Fields : Type 0 where
    done : Fields
    field : Text → Value → Fields → Fields

abbrev pub elements : Values → List Value
elements nil = []
elements (cons v vs) = v ∷ elements vs

abbrev pub values_of : List Value → Values
values_of [] = nil
values_of (v ∷ vs) = cons v (values_of vs)

pub elements-values_of : (vs : List Value) → elements (values_of vs) ≡ vs
elements-values_of [] = refl
elements-values_of (v ∷ vs) = ap (◌∷◌ v) (elements-values_of vs)

-- The strings that a loop over a dict or over a string goes through.
abbrev pub field_names : Fields → List Value
field_names done = []
field_names (field k v fs) = str k ∷ field_names fs

abbrev pub characters : Text → List Value
characters [] = []
characters (c ∷ s) = str (c ∷ []) ∷ characters s

unfoldable pub find_field : Text → Fields → Option Value
find_field k done = none
find_field k (field j v fs) = if j == k then some v else find_field k fs

abbrev pub or_else : Value → Option Value → Value
or_else d none = d
or_else d (some v) = v

-- `v.get(key, default)`: only a dict has the method.
unfoldable pub get : Text → Value → Value → Result Value
get key default (object fs) = ok (or_else default (find_field key fs))
get key default v = err (attribute_error (lit "get"))

-- `for x in v`
unfoldable pub iterate : Value → Result (List Value)
iterate (array vs) = ok (elements vs)
iterate (object fs) = ok (field_names fs)
iterate (str s) = ok (characters s)
iterate v = err (type_error (lit "not iterable"))

-- `bool(v)`
unfoldable pub truth : Value → Bool
truth null = false
truth (bool b) = b
truth (int (pos zero)) = false
truth (int n) = true
truth (str []) = false
truth (str (c ∷ s)) = true
truth (array nil) = false
truth (array (cons v vs)) = true
truth (object done) = false
truth (object (field k v fs)) = true

-- `v == s` for a string
unfoldable pub is_text : Text → Value → Bool
is_text s (str t) = t == s
is_text s v = false

-- `str(v)`; `show` is `str` of a list or a dict.
unfoldable pub to_text : (Value → Text) → Value → Text
to_text show null = lit "None"
to_text show (bool true) = lit "True"
to_text show (bool false) = lit "False"
to_text show (int (pos n)) = decimal n
to_text show (int (negsuc n)) = lit "-" ++ decimal (n + 1)
to_text show (str s) = s
to_text show v = show v
