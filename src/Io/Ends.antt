-- ===== src/Io/Ends.antt =====
-- Readers that end on every buffer, and never give back more bytes than they were given: one rule for
-- each way to build a reader.
use cassandra_driver.Base.{
  ℕ, zero, suc, ◌≢◌, List, [], length, if◌then◌else◌, Bool, true, false, arith,
}
use cassandra_driver.Base.Result.{throws, stuck, Exception}
use cassandra_driver.Io.{RawBuffer, Reader, ◌>>=◌, pure, lift, read_int_be, to_size}
use cassandra_driver.Io.Strings.{string_parser, bytes_parser, reserve}
use cassandra_driver.Io.Containers.{read_elements, list_parser, read_entries, map_parser, emplace}
use cassandra_driver.Io.Shortens.{
  Shortens, done, thrown, Shortens-bind, Shortens-weaken, Shortens-ne-stuck, read_int_be-Shortens,
  string_parser-Shortens, bytes_parser-Shortens, lift-reserve-Shortens,
}

pub record Ends {ℓ} {A : Type ℓ} (m : Reader A) : Type ℓ where
  pub at : (bs : RawBuffer) → Shortens 0 (length bs) (m bs)

module _ {ℓ} {A : Type ℓ} where
  pub Ends-ne-stuck : (m : Reader A) (bs : RawBuffer) → Ends m → m bs ≢ stuck
  Ends-ne-stuck m bs e = Shortens-ne-stuck (e.at bs)

  pub Ends-pure : (a : A) → Ends (pure a)
  Ends-pure a = record { at = λ bs. done (omega arith) }

  pub Ends-throws : (e : Exception) → Ends (lift {A = A} (throws e))
  Ends-throws e = record { at = λ bs. thrown }

  pub Ends-if : (b : Bool) (m n : Reader A) → Ends m → Ends n → Ends (if b then m else n)
  Ends-if true m n em en = em
  Ends-if false m n em en = en

  pub Ends-bind {κ} :
      {B : Type κ} (m : Reader A) (f : A → Reader B)
      → Ends m
      → ((a : A) → Ends (f a))
      → Ends (m >>= f)
  Ends-bind m f em ef = record {
    at = λ bs.
        Shortens-bind 0 (m bs) f (em.at bs)
          λ a rest h. Shortens-weaken 0 (length bs) (omega arith) ((ef a).at rest);
  }

module _ {ℓ} {A : Type ℓ} where
  pub Ends-read_elements : (m : Reader A) (count : ℕ) → Ends m → Ends (read_elements m count)
  unfolding read_elements
  Ends-read_elements m zero em = Ends-pure []
  Ends-read_elements m (suc count) em =
      Ends-bind m _ em
        λ x. Ends-bind (read_elements m count) _ (Ends-read_elements m count em) λ xs. Ends-pure _

pub Ends-read_int_be : (width : ℕ) → Ends (read_int_be width)
Ends-read_int_be width = record {
  at = λ bs. Shortens-weaken 0 (length bs) (omega arith) (read_int_be-Shortens width bs);
}

pub Ends-string_parser : (width : ℕ) → Ends (string_parser width)
Ends-string_parser width = record {
  at = λ bs. Shortens-weaken 0 (length bs) (omega arith) (string_parser-Shortens width bs);
}

pub Ends-bytes_parser : (width : ℕ) → Ends (bytes_parser width)
Ends-bytes_parser width = record {
  at = λ bs. Shortens-weaken 0 (length bs) (omega arith) (bytes_parser-Shortens width bs);
}

pub Ends-reserve : (size : ℕ) → Ends (lift (reserve size))
Ends-reserve size = record { at = lift-reserve-Shortens size }

module _ {ℓ} {A : Type ℓ} where
  pub Ends-list_parser : (width : ℕ) (m : Reader A) → Ends m → Ends (list_parser width m)
  unfolding list_parser
  Ends-list_parser width m em =
      Ends-bind (read_int_be width) _ (Ends-read_int_be width)
        λ count. Ends-read_elements m (to_size count) em

module _ {ℓ κ} {K : Type ℓ} {V : Type κ} (same : K → K → Bool) (rk : Reader K) (rv : Reader V) where
  pub Ends-read_entries :
      (count : ℕ) (m : List (K × V)) → Ends rk → Ends rv → Ends (read_entries same rk rv count m)
  unfolding read_entries
  Ends-read_entries zero m ek ev = Ends-pure m
  Ends-read_entries (suc count) m ek ev =
      Ends-bind rk _ ek
        λ k. Ends-bind rv _ ev λ v. Ends-read_entries count (emplace same k v m) ek ev

  pub Ends-map_parser : (width : ℕ) → Ends rk → Ends rv → Ends (map_parser same width rk rv)
  unfolding map_parser
  Ends-map_parser width ek ev =
      Ends-bind (read_int_be width) _ (Ends-read_int_be width)
        λ count. Ends-read_entries (to_size count) [] ek ev

pub ruleset ends_rules = (
  Ends-pure, Ends-throws, Ends-if, Ends-bind, Ends-read_elements, Ends-read_int_be,
  Ends-string_parser, Ends-bytes_parser, Ends-reserve, Ends-list_parser, Ends-map_parser,
)
