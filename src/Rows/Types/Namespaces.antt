-- ===== src/Rows/Types/Namespaces.antt =====
-- Which types include/cassandra/io/row_types.hpp takes for rows.
use cassandra_driver.Base.{
  ℕ, suc, Option-cases, Bool-cases, ◌+◌, ◌≡◌, ◌↔◌, ◌∙◌, refl, sym, ap, subst, List, [], ◌∷◌, ◌++◌,
  Bool, true, false, ◌==◌, ◌&&◌, ◌⊎◌, inl, inr, none, some, length, drop, All, codes, drop-append,
  arith,
}
use cassandra_driver.Io.{RawBuffer}
use cassandra_driver.Io.Cells.{CellType}
use cassandra_driver.Rows.Types.{
  TypeTraits, expected_prefix, starts_with, find, is_in_namespace_impl, is_in_std_namespace,
  is_in_boost_namespace, detect_is_suitable_row_type, row_category, Tag, extraction_tag, row_type,
}

starts_with-append : (text rest : RawBuffer) → starts_with (text ++ rest) text ≡ true
unfolding starts_with
starts_with-append [] rest = refl
starts_with-append (x ∷ text) rest = ground (arith, starts_with-append text rest)

starts_with→append :
    (text start : RawBuffer)
    → starts_with text start ≡ true
    → (rest : RawBuffer) × (text ≡ start ++ rest)
unfolding starts_with
starts_with→append text [] e = (text, refl)
starts_with→append [] (p ∷ ps) e = cc
starts_with→append (x ∷ xs) (p ∷ ps) e =
    let (rest, f) = starts_with→append xs ps (ground arith) in
    let same : x ≡ p = ground arith in (rest, λ i. same i ∷ f i)

-- No letter i before the text of the function's own name.
abbrev pub HasNoI : RawBuffer → Type 0
HasNoI = All λ c. (c == 105) ≡ false

find_first :
    (pattern before rest : RawBuffer)
    → HasNoI before
    → find (105 ∷ pattern) (before ++ ((105 ∷ pattern) ++ rest)) ≡ some ((105 ∷ pattern) ++ rest)
unfolding find starts_with
find_first pattern [] rest h = ground (arith, starts_with-append pattern rest)
find_first pattern (c ∷ before) rest h = ground (arith, h.0, find_first pattern before rest h.1)

found_at :
    (clang : Bool) (before name : RawBuffer)
    → HasNoI before
    → find (expected_prefix clang) (before ++ (expected_prefix clang ++ name))
      ≡ some (expected_prefix clang ++ name)
unfolding expected_prefix
found_at true before name h =
    find_first (codes "o::traits::IsInNamespaceImpl(std::string_view) [T = ") before name h
found_at false before name h =
    find_first (codes "o::traits::IsInNamespaceImpl(std::string_view) [with T = ") before name h

drop-append_add : (xs ys : RawBuffer) (n : ℕ) → drop (length xs + n) (xs ++ ys) ≡ drop n ys
drop-append_add [] ys n = ap (λ k. drop k ys) (omega arith)
drop-append_add (x ∷ xs) ys n =
    let further : length (x ∷ xs) + n ≡ suc (length xs + n) = omega arith in
    ap (λ k. drop k ((x ∷ xs) ++ ys)) further ∙ drop-append_add xs ys n

inside :
    (clang : Bool) (before name nsp : RawBuffer)
    → HasNoI before
    → is_in_namespace_impl clang (before ++ (expected_prefix clang ++ name)) nsp
      ≡ (starts_with name nsp && starts_with (drop (length nsp) name) (codes "::"))
unfolding is_in_namespace_impl
inside clang before name nsp h =
    rw (is_in_namespace_impl, found_at clang before name h, drop-append, drop-append_add)

-- The name of a function in which the letter i is first that of `io::traits::IsInNamespaceImpl`, as both
-- compilers write it, puts a type into a namespace exactly if the type's name is the namespace's, two
-- colons, and something more.
is_in_namespace_impl_iff :
    (clang : Bool) (before name nsp : RawBuffer)
    → HasNoI before
    → (is_in_namespace_impl clang (before ++ (expected_prefix clang ++ name)) nsp ≡ true)
      ↔ ((rest : RawBuffer) × (name ≡ nsp ++ (codes "::" ++ rest)))
is_in_namespace_impl_iff clang before name nsp h = (
  λ e.
      let both = sym (inside clang before name nsp h) ∙ e in
      let (r, f) = starts_with→append name nsp (ground (arith, both)) in
      let behind : starts_with (drop (length nsp) name) (codes "::") ≡ true =
        ground (arith, both) in
      let (rest, g) = starts_with→append r (codes "::") (
        subst (λ t. starts_with t (codes "::") ≡ true)
          (ap (drop (length nsp)) f ∙ drop-append nsp r) behind) in
      (rest, f ∙ ap (◌++◌ nsp) g),
  λ (rest, e).
      inside clang before name nsp h
      ∙ rw (e, starts_with-append nsp (codes "::" ++ rest), drop-append nsp (codes "::" ++ rest))
          (starts_with-append (codes "::") rest),
)

-- A type of the namespaces std and boost, by its name in the function's, that is no tuple is extracted as
-- one field, and has no row type.
pub extraction_tag-std :
    (clang : Bool) (type : TypeTraits) (before rest : RawBuffer)
    → HasNoI before
    → (type.function_name ≡ before ++ (expected_prefix clang ++ (codes "std::" ++ rest)))
      ⊎ (type.function_name ≡ before ++ (expected_prefix clang ++ (codes "boost::" ++ rest)))
    → type.tuple_types ≡ none
    → (extraction_tag clang type ≡ Tag.field_tag) × (row_type clang type ≡ none)
unfolding extraction_tag row_type row_category detect_is_suitable_row_type is_in_std_namespace
    is_in_boost_namespace
extraction_tag-std clang type before rest h (inl e) no_tuple =
    let found : is_in_namespace_impl clang type.function_name (codes "std") ≡ true = rw e (
      (is_in_namespace_impl_iff clang before (codes "std::" ++ rest) (codes "std") h).1
        (rest, refl)) in
    (ground (arith, found, no_tuple), ground (arith, found, no_tuple))
extraction_tag-std clang type before rest h (inr e) no_tuple =
    let found : is_in_namespace_impl clang type.function_name (codes "boost") ≡ true = rw e (
      (is_in_namespace_impl_iff clang before (codes "boost::" ++ rest) (codes "boost") h).1
        (rest, refl)) in
    (ground (arith, found, no_tuple), ground (arith, found, no_tuple))

-- A type is extracted as a row exactly if it has a row type: the members of a tuple, or of a class that is
-- not empty, polymorphic, a union, or of std or boost, and that boost::pfr can reflect.
extraction_tag_iff :
    (clang : Bool) (type : TypeTraits)
    → (extraction_tag clang type ≡ Tag.row_tag) ↔ (
        (types : List CellType) × (row_type clang type ≡ some types)
        × ((type.tuple_types ≡ some types)
            ⊎ ((type.tuple_types ≡ none)
                × (type.structure_types ≡ types)
                × (detect_is_suitable_row_type clang type ≡ true))))
unfolding extraction_tag row_type row_category
extraction_tag_iff clang type = elim (Option-cases type.tuple_types) [
  | inr (types, e) ↦ (λ row. (types, ground (arith, e), inl e), λ made. ground (arith, e))
  | inl e ↦ elim (Bool-cases (detect_is_suitable_row_type clang type)) [
    | inl suitable ↦ (
      λ row. (type.structure_types, ground (arith, e, suitable), inr (e, refl, suitable)),
      λ made. ground (arith, e, suitable),
    )
    | inr unsuitable ↦ (
      λ row. absurd (ground (arith, e, unsuitable, row)),
      λ (types, made, how). ground (arith, e, unsuitable, made),
    )
  ]
]
