-- ===== src/Examples/TypesExamples.antt =====
-- std::string as a type of a row's field.
use cassandra_driver.Base.{◌≡◌, refl, inl, [], ◌++◌, true, false, none, codes}
use cassandra_driver.Io.{RawBuffer}
use cassandra_driver.Rows.Types.{TypeTraits, expected_prefix, Tag, extraction_tag, row_type}
use cassandra_driver.Rows.Types.Namespaces.{HasNoI, extraction_tag-std}

abbrev before_name : RawBuffer
before_name = codes "bool cassandra::"

-- std::string, by clang
abbrev std_string : TypeTraits
std_string = record {
  tuple_types = none;
  structure_types = [];
  is_class = true;
  is_empty = false;
  is_implicitly_reflectable = true;
  is_polymorphic = false;
  is_union = false;
  function_name = before_name ++ (expected_prefix true ++ (codes "std::" ++ codes "string]"));
}

before_name-HasNoI : HasNoI before_name
before_name-HasNoI = (
  refl,
  (
    refl,
    (
      refl,
      (
        refl,
        (
          refl,
          (
            refl,
            (refl, (refl, (refl, (refl, (refl, (refl, (refl, (refl, (refl, (refl, tt)))))))))),
          ),
        ),
      ),
    ),
  ),
)

string_is_field :
    (extraction_tag true std_string ≡ Tag.field_tag) × (row_type true std_string ≡ none)
string_is_field =
    extraction_tag-std true std_string before_name (codes "string]") before_name-HasNoI (inl refl)
      refl
