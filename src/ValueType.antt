-- ===== src/ValueType.antt =====
-- include/velocypack/ValueType.h and src/ValueType.cpp: the types of values and their names.
use Prim.Native.String.{String}
use velocypack.Prelude.{ℕ, Bool, ◌||◌, ◌==◌, if◌then◌else◌, ◌≡◌, refl, ap, true, ==_iff}

pub data ValueType : Type 0 where
  none : ValueType
  illegal : ValueType
  null : ValueType
  bool : ValueType
  array : ValueType
  object : ValueType
  double : ValueType
  utc_date : ValueType
  external : ValueType
  min_key : ValueType
  max_key : ValueType
  int : ValueType
  uint : ValueType
  small_int : ValueType
  string : ValueType
  binary : ValueType
  bcd : ValueType
  custom : ValueType
  tagged : ValueType

-- The number of an enum constant.
abbrev pub index : ValueType → ℕ
index none = 0
index illegal = 1
index null = 2
index bool = 3
index array = 4
index object = 5
index double = 6
index utc_date = 7
index external = 8
index min_key = 9
index max_key = 10
index int = 11
index uint = 12
index small_int = 13
index string = 14
index binary = 15
index bcd = 16
index custom = 17
index tagged = 18

-- `t == u` on the enum.
abbrev pub eq : ValueType → ValueType → Bool
eq t u = index t == index u

-- The types in the order of the enum.
abbrev pub of_index : ℕ → ValueType
of_index n =
    if n == 0
    then none
    else if n == 1
    then illegal
    else if n == 2
    then null
    else if n == 3
    then bool
    else if n == 4
    then array
    else if n == 5
    then object
    else if n == 6
    then double
    else if n == 7
    then utc_date
    else if n == 8
    then external
    else if n == 9
    then min_key
    else if n == 10
    then max_key
    else if n == 11
    then int
    else if n == 12
    then uint
    else if n == 13
    then small_int
    else if n == 14
    then string
    else if n == 15
    then binary
    else if n == 16
    then bcd
    else if n == 17
    then custom
    else tagged

of_index-index : (t : ValueType) → of_index (index t) ≡ t
of_index-index none = refl
of_index-index illegal = refl
of_index-index null = refl
of_index-index bool = refl
of_index-index array = refl
of_index-index object = refl
of_index-index double = refl
of_index-index utc_date = refl
of_index-index external = refl
of_index-index min_key = refl
of_index-index max_key = refl
of_index-index int = refl
of_index-index uint = refl
of_index-index small_int = refl
of_index-index string = refl
of_index-index binary = refl
of_index-index bcd = refl
of_index-index custom = refl
of_index-index tagged = refl

pub eq→≡ : (t u : ValueType) → eq t u ≡ true → t ≡ u
eq→≡ t u h = cc (of_index-index t, of_index-index u, ap of_index ((==_iff (index t) (index u)).0 h))

-- `valueTypeName`
unfoldable pub value_type_name : ValueType → String
value_type_name none = "none"
value_type_name illegal = "illegal"
value_type_name null = "null"
value_type_name bool = "bool"
value_type_name array = "array"
value_type_name object = "object"
value_type_name double = "double"
value_type_name utc_date = "utc-date"
value_type_name external = "external"
value_type_name min_key = "min-key"
value_type_name max_key = "max-key"
value_type_name int = "int"
value_type_name uint = "uint"
value_type_name small_int = "smallint"
value_type_name string = "string"
value_type_name binary = "binary"
value_type_name bcd = "bcd"
value_type_name custom = "custom"
value_type_name tagged = "tagged"

-- `valueTypeGroup`: all numbers are of one group.
unfoldable pub value_type_group : ValueType → ValueType
value_type_group t = if eq t double || eq t int || eq t uint || eq t small_int then double else t
