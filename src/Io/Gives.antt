-- ===== src/Io/Gives.antt =====
-- A postcondition of readers (include/cassandra/io/buffer_reader.hpp): what is read has a property.
use cassandra_driver.Base.{ℕ, zero, suc, ◌≡◌, refl, ap, subst, [], ◌∷◌, length, All}
use cassandra_driver.Base.Result.{ok, throws, fault, stuck, Result}
use cassandra_driver.Base.Result
use cassandra_driver.Io.{RawBuffer, Reader, ◌>>=◌, pure}
use cassandra_driver.Io.Containers.{read_elements}

pub record Gives {ℓ} {A : Type ℓ} (P : A → Type 0) (m : Reader A) : Type ℓ where
  pub at : (bs : RawBuffer) (a : A) (rest : RawBuffer) → m bs ≡ ok (a, rest) → P a

-- How a bind that succeeds did.
bind-eq-ok {ℓ κ} :
    {A : Type ℓ} {B : Type κ} (m : Result (A × RawBuffer)) (f : A → Reader B) (b : B)
    (rest : RawBuffer)
    → Result.◌>>=◌ m (λ (a, mid). f a mid) ≡ ok (b, rest)
    → (a : A) × (mid : RawBuffer) × (m ≡ ok (a, mid)) × (f a mid ≡ ok (b, rest))
bind-eq-ok (ok (a, mid)) f b rest e = (a, mid, refl, e)
bind-eq-ok (throws x) f b rest e = cc
bind-eq-ok fault f b rest e = cc
bind-eq-ok stuck f b rest e = cc

module _ {ℓ κ} {B : Type κ} where
  pub Gives-bind :
      {A : Type ℓ} (P : B → Type 0) (Q : A → Type 0) (m : Reader A) (f : A → Reader B)
      → Gives Q m
      → ((a : A) → Q a → Gives P (f a))
      → Gives P (m >>= f)
  Gives-bind P Q m f gm gf = record {
    at = λ bs b rest e.
        let (a, mid, em, ef) = bind-eq-ok (m bs) f b rest e in
        (gf a (gm.at bs a mid em)).at mid b rest ef;
  }

module _ {ℓ} {A : Type ℓ} where
  pub Gives-any : (m : Reader A) → Gives (λ a. Unit {0}) m
  Gives-any m = record { at = λ bs a rest e. tt }

  -- Nothing is asked of a first part.
  pub Gives-next {κ} :
      {B : Type κ} (P : B → Type 0) (m : Reader A) (f : A → Reader B)
      → ((a : A) → Gives P (f a))
      → Gives P (m >>= f)
  Gives-next P m f g = Gives-bind P (λ a. Unit {0}) m f (Gives-any m) λ a _. g a

  pub Gives-pure : (P : A → Type 0) (a : A) → P a → Gives P (pure a)
  Gives-pure P a h = record { at = λ bs b rest e. subst P (cc) h }

module _ {ℓ} {A : Type ℓ} where
  -- So many elements, each with the property.
  pub Gives-read_elements :
      (P : A → Type 0) (m : Reader A) (count : ℕ)
      → Gives P m
      → Gives (λ xs. (length xs ≡ count) × All P xs) (read_elements m count)
  unfolding read_elements
  Gives-read_elements P m zero g = Gives-pure _ [] (refl, tt)
  Gives-read_elements P m (suc count) g = Gives-bind _ P m _ g λ x px.
      Gives-bind _ (λ xs. (length xs ≡ count) × All P xs) (read_elements m count) _
        (Gives-read_elements P m count g) λ xs h. Gives-pure _ (x ∷ xs) (ap suc h.0, (px, h.1))

module _ {ℓ} {A : Type ℓ} where
  pub Gives-imp : (P Q : A → Type 0) (m : Reader A) → ((a : A) → Q a → P a) → Gives Q m → Gives P m
  Gives-imp P Q m f g = record { at = λ bs a rest e. f a (g.at bs a rest e) }
