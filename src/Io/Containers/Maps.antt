-- ===== src/Io/Containers/Maps.antt =====
-- The maps of include/cassandra/io/map_types.hpp, entry by entry.
use cassandra_driver.Base.{
  ℕ, ◌^◌, ◌<◌, ◌≡◌, refl, List, [], ◌∷◌, ◌++◌, append_assoc, append-nil, arith, length, Bool, true,
  false, if◌then◌else◌, ◌==◌,
}
use cassandra_driver.Base.Result.{ok}
use cassandra_driver.Io.{RawBuffer}
use cassandra_driver.Io.Integers.{read_int_be-be_bytes}
use cassandra_driver.Io.Containers.{
  Codec, write_elements, contains, emplace, read_entries, map_parser, map_formatter,
}
use cassandra_driver.Io.Containers.Codecs.{to_size_small}
use native.Mathlib.Nat.{mod-eq_of_lt}

-- Equality of texts, for the maps that `String` keys.
unfoldable pub same_text : RawBuffer → RawBuffer → Bool
same_text [] [] = true
same_text [] (y ∷ ys) = false
same_text (x ∷ xs) [] = false
same_text (x ∷ xs) (y ∷ ys) = let rest = same_text xs ys in if x == y then rest else false

pub same_text_refl : (xs : RawBuffer) → same_text xs xs ≡ true
unfolding same_text
same_text_refl [] = refl
same_text_refl (x ∷ xs) = ground (arith, same_text_refl xs)

pub same_text→eq : (xs ys : RawBuffer) → same_text xs ys ≡ true → xs ≡ ys
unfolding same_text
same_text→eq [] [] e = refl
same_text→eq [] (y ∷ ys) e = cc
same_text→eq (x ∷ xs) [] e = cc
same_text→eq (x ∷ xs) (y ∷ ys) e = ground (arith, same_text→eq xs ys)

module _ {ℓ} {K V : Type ℓ} (same : K → K → Bool) (ck : Codec K) (cv : Codec V) where
  -- No key of `m` stands among the entries before it, `before` included.
  abbrev pub DistinctAfter : List (K × V) → List (K × V) → Type 0
  DistinctAfter before [] = Unit {0}
  DistinctAfter before ((k, v) ∷ m) =
      (contains same k before ≡ false) × DistinctAfter (before ++ (k, v) ∷ []) m

  abbrev pub FitsEntries : List (K × V) → Type ℓ
  FitsEntries [] = Unit {ℓ}
  FitsEntries ((k, v) ∷ m) = ck.Fits k × cv.Fits v × FitsEntries m

  read_entries-write_elements :
      (before m : List (K × V)) (rest : RawBuffer)
      → DistinctAfter before m
      → FitsEntries m
      → read_entries same ck.read cv.read
          (length m)
          before
          (write_elements (λ (k, v). ck.write k ++ cv.write v) m ++ rest)
        ≡ ok (before ++ m, rest)
  unfolding read_entries write_elements emplace
  read_entries-write_elements before [] rest distinct fits = rw append-nil
  read_entries-write_elements before ((k, v) ∷ m) rest distinct fits =
      let step = read_entries-write_elements (before ++ (k, v) ∷ []) m rest distinct.1 fits.2 in
      rw (
        append_assoc,
        append_assoc,
        ck.read-write k fits.0,
        cv.read-write v fits.1,
        distinct.0,
        step,
        append_assoc,
      )

  pub record FitsMap (width : ℕ) (m : List (K × V)) : Type ℓ where
    pub in_width : length m < 256 ^ width
    pub in_int : length m < 2 ^ 31
    pub distinct : DistinctAfter [] m
    pub entries : FitsEntries m

  -- A map of distinct keys, whose number fits its prefix and an Int and whose entries fit, is read back
  -- in the order it was written.
  pub map_parser-map_formatter :
      (width : ℕ) (m : List (K × V))
      → FitsMap width m
      → (rest : RawBuffer)
      → map_parser same width ck.read cv.read (map_formatter width ck.write cv.write m ++ rest)
        ≡ ok (m, rest)
  unfolding map_parser map_formatter
  map_parser-map_formatter width m fits rest =
      rw
        (
          mod-eq_of_lt fits.in_width,
          append_assoc,
          read_int_be-be_bytes width (length m) fits.in_width,
          to_size_small (length m) fits.in_int,
        )
        (read_entries-write_elements [] m rest fits.distinct fits.entries)
