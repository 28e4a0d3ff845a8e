-- ===== src/Rows/Types.antt =====
-- Which C++ types take a row: include/cassandra/io/row_types.hpp. What the compiler and boost::pfr say of a
-- type is a record; a text is the list of its characters' codes.
pub mod Namespaces
use cassandra_driver.Base.{
  ℕ, ◌+◌, List, [], ◌∷◌, Bool, true, false, not, ◌&&◌, ◌==◌, if◌then◌else◌, Option, none, some,
  length, drop, codes,
}
use cassandra_driver.Io.{RawBuffer}
use cassandra_driver.Io.Cells.{CellType}

-- Of a type without const and volatile: its members' types if it is a std::tuple, or as structure_tie has
-- them; the traits; and BOOST_CURRENT_FUNCTION in `IsInNamespaceImpl` of it.
pub record TypeTraits : Type 0 where
  pub tuple_types : Option (List CellType)
  pub structure_types : List CellType
  pub is_class : Bool
  pub is_empty : Bool
  pub is_implicitly_reflectable : Bool
  pub is_polymorphic : Bool
  pub is_union : Bool
  pub function_name : RawBuffer

-- `kExpectedPrefix`
pub expected_prefix : Bool → RawBuffer
expected_prefix true = codes "io::traits::IsInNamespaceImpl(std::string_view) [T = "
expected_prefix false = codes "io::traits::IsInNamespaceImpl(std::string_view) [with T = "

-- `starts_with` of std::string_view, which userver's `StartsWith` is.
pub starts_with : RawBuffer → RawBuffer → Bool
starts_with text [] = true
starts_with [] (p ∷ ps) = false
starts_with (x ∷ xs) (p ∷ ps) = let rest = starts_with xs ps in if x == p then rest else false

-- What stands from `find` on, or nothing for `npos`.
pub find : RawBuffer → RawBuffer → Option RawBuffer
unfolding starts_with
find pattern [] = if starts_with [] pattern then some [] else none
find pattern (x ∷ xs) =
    let rest = find pattern xs in if starts_with (x ∷ xs) pattern then some (x ∷ xs) else rest

-- `IsInNamespaceImpl`, of the function's name; the Boolean is `__clang__`.
pub is_in_namespace_impl : Bool → RawBuffer → RawBuffer → Bool
unfolding find expected_prefix
is_in_namespace_impl clang fname nsp =
    let prefix = expected_prefix clang in
    elim (find prefix fname) [
      | none ↦ false
      | some fname_short ↦
          starts_with (drop (length prefix) fname_short) nsp
          && starts_with (drop (length prefix + length nsp) fname_short) (codes "::")
    ]

module _ (clang : Bool) where
  -- `kIsInStdNamespace` and `kIsInBoostNamespace`
  pub is_in_std_namespace : TypeTraits → Bool
  unfolding is_in_namespace_impl
  is_in_std_namespace type = is_in_namespace_impl clang type.function_name (codes "std")

  pub is_in_boost_namespace : TypeTraits → Bool
  unfolding is_in_namespace_impl
  is_in_boost_namespace type = is_in_namespace_impl clang type.function_name (codes "boost")

  -- `DetectIsSuitableRowType` and `IsSuitableRowType`
  pub detect_is_suitable_row_type : TypeTraits → Bool
  unfolding is_in_std_namespace is_in_boost_namespace
  detect_is_suitable_row_type type =
      type.is_class
      && not type.is_empty
      && type.is_implicitly_reflectable
      && not type.is_polymorphic
      && not type.is_union
      && not (is_in_std_namespace type)
      && not (is_in_boost_namespace type)

pub data RowCategoryType : Type 0 where
  non_row tuple aggregate intrusive_introspection : RowCategoryType

-- `IsTuple`
abbrev pub is_tuple : Option (List CellType) → Bool
is_tuple none = false
is_tuple (some types) = true

-- `RowCategory`
pub row_category : Bool → TypeTraits → RowCategoryType
unfolding detect_is_suitable_row_type
row_category clang type =
    if is_tuple type.tuple_types
    then RowCategoryType.tuple
    else if detect_is_suitable_row_type clang type
    then RowCategoryType.aggregate
    else RowCategoryType.non_row

-- `kIsRowType` and `kIsColumnType`
abbrev pub is_row : RowCategoryType → Bool
is_row RowCategoryType.non_row = false
is_row RowCategoryType.tuple = true
is_row RowCategoryType.aggregate = true
is_row RowCategoryType.intrusive_introspection = true

-- `RowTag` and `FieldTag`
pub data Tag : Type 0 where
  row_tag field_tag : Tag

-- `ExtractionTag`
pub extraction_tag : Bool → TypeTraits → Tag
unfolding row_category
extraction_tag clang type = if is_row (row_category clang type) then Tag.row_tag else Tag.field_tag

-- `TupleType` of `RowTypeImpl`, for each category that has one; nothing where it does not compile.
abbrev pub row_type_impl : RowCategoryType → TypeTraits → Option (List CellType)
row_type_impl RowCategoryType.non_row type = none
row_type_impl RowCategoryType.tuple type = type.tuple_types
row_type_impl RowCategoryType.aggregate type = some type.structure_types
row_type_impl RowCategoryType.intrusive_introspection type = none

-- `RowType`
pub row_type : Bool → TypeTraits → Option (List CellType)
unfolding row_category
row_type clang type = row_type_impl (row_category clang type) type
