-- ===== src/Proto/Value.antt =====
-- JavaScript values as they arrive in a parsed request, and the conversions that the source applies.
use circuit_agent_cloud.Prelude.{
  ℕ, Bool, true, false, not, ◌&&◌, ◌||◌, String, ◌==◌, Number, nan, num, pos, eq_number,
}

-- A number stands for a multiple of 10^-9.
abbrev pub scale : ℕ
scale = 1_000_000_000

-- `other t` is an object or an array whose text form is `t`: two of them are never `===`. Objects whose
-- `toString` and `valueOf` are not the inherited ones are left out.
pub data Value : Type 0 where
  undefined null : Value
  boolean : Bool → Value
  number : Number → Value
  text : String → Value
  other : String → Value

-- The number-to-text conversions of the language.
pub record Convert : Type 0 where
  pub show_number : Number → String
  pub parse_number : String → Number

-- `a === b`.
abbrev pub strict_eq : Value → Value → Bool
strict_eq undefined undefined = true
strict_eq null null = true
strict_eq (boolean true) (boolean b) = b
strict_eq (boolean false) (boolean true) = false
strict_eq (boolean false) (boolean false) = true
strict_eq (number a) (number b) = eq_number a b
strict_eq (text s) (text t) = s == t
strict_eq _ _ = false

abbrev pub is_nan : Value → Bool
is_nan (number nan) = true
is_nan _ = false

-- The comparison of the keys of a `Map`.
abbrev pub same_key : Value → Value → Bool
same_key a b = (is_nan a && is_nan b) || strict_eq a b

-- `v == null`.
abbrev pub is_nullish : Value → Bool
is_nullish undefined = true
is_nullish null = true
is_nullish _ = false

-- `!v`.
abbrev pub is_falsy : Value → Bool
is_falsy undefined = true
is_falsy null = true
is_falsy (boolean b) = not b
is_falsy (number nan) = true
is_falsy (number (num n)) = eq_number (num n) (num (pos 0))
is_falsy (text s) = s == ""
is_falsy (other t) = false

-- `String(v)`.
abbrev pub to_text : Convert → Value → String
to_text c undefined = "undefined"
to_text c null = "null"
to_text c (boolean true) = "true"
to_text c (boolean false) = "false"
to_text c (number n) = c.show_number n
to_text c (text s) = s
to_text c (other t) = t

-- `Number(v)`.
abbrev pub to_number : Convert → Value → Number
to_number c undefined = nan
to_number c null = num (pos 0)
to_number c (boolean true) = num (pos scale)
to_number c (boolean false) = num (pos 0)
to_number c (number n) = n
to_number c (text s) = c.parse_number s
to_number c (other t) = c.parse_number t
