-- ===== src/Outcome.antt =====
-- The outcome of a Rust call that returns `anyhow::Result`: a value, an error with the message it
-- carries, or a panic. `out_of_fuel` is no outcome of the program: a loop of the model has spent its
-- fuel, which the theorems on termination exclude.
use mathlib.Core.Path.{subst}
use pact_protobuf_plugin.Base.{ℕ, ◌≡◌, ◌≢◌, refl, Option, none, some, List}
use pact_protobuf_plugin.Base.Text.{Text}
use pact_protobuf_plugin.Base.Int.{ℤ}
use pact_protobuf_plugin.ProstTypes.{FieldType, WireType}

-- One constructor for each message that the modelled code builds.
pub data Error : Type 0 where
  empty_type_name : Error
  service_name_without_method : Text → Error
  empty_service_name empty_method_name : Error
  message_not_in_file : Text → Text → Error
  method_not_found : Text → Text → Error
  message_not_in_files : Text → List Text → Error
  service_not_found : Text → Error
  no_files_for_package : Text → Error
  no_files_without_package : Error
  field_not_found : ℤ → Error
  enum_not_found : Text → Error
  message_type_not_found : Option Text → ℕ → Error
  type_can_not_be_packed : FieldType → Error
  packed_bytes_left : ℕ → Error
  insufficient_data : ℕ → ℕ → ℕ → Error
  unsupported_wire_type : WireType → Error
  invalid_utf8 invalid_key invalid_varint : Error
  expected_varint expected_64_bit expected_length_delimited expected_32_bit : Error
  groups_not_supported : Error
  path_without_root path_at_end path_index path_star path_star_index path_in_enum : Error
  path_not_found : Text → Error
  path_beyond_field : Text → Error
  path_index_not_repeated : ℕ → Error
  path_segment_not_applicable : Error
  not_a_value : Text → Error
  cannot_convert type_name_missing : Error
  mismatched_types type_not_supported : FieldType → Error
  enum_value_not_found : ℤ → Text → Error
  odd_map_values : ℕ → Error
  nested_type_not_found : Text → Text → Error
  map_key_not_found map_value_not_found : Text → Error
  no_tag : Option Text → Error
  struct_not_encoded : Error
  entry_key_missing entry_value_missing entry_descriptor_missing : Option Text → Error
  struct_entry_not_a_message : ℕ → Error
  struct_entry_count : ℕ → ℕ → Error
  struct_key_missing struct_value_missing : Error
  struct_key_not_a_string struct_value_not_valid struct_value_not_a_message : Text → Error

pub data Outcome {ℓ} (A : Type ℓ) : Type ℓ where
  ok : A → Outcome A
  err : Error → Outcome A
  panic out_of_fuel : Outcome A

module _ {ℓ κ} {A : Type ℓ} {B : Type κ} where
  -- The `?` operator.
  infixl 5 ◌>>=◌
  abbrev pub ◌>>=◌ : Outcome A → (A → Outcome B) → Outcome B
  ok a >>= f = f a
  err e >>= f = err e
  panic >>= f = panic
  out_of_fuel >>= f = out_of_fuel

  -- `Result::map`.
  abbrev pub map_ok : (A → B) → Outcome A → Outcome B
  map_ok f m = m >>= λ a. ok (f a)

module _ {ℓ} {A : Type ℓ} where
  -- `Option::ok_or_else`.
  abbrev pub ok_or : Option A → Error → Outcome A
  ok_or none e = err e
  ok_or (some a) e = ok a

  -- `Result::ok`.
  abbrev pub to_option : Outcome A → Option A
  to_option (ok a) = some a
  to_option _ = none

  -- `Result::or_else`.
  abbrev pub or_else_err : Outcome A → Outcome A → Outcome A
  or_else_err (err e) other = other
  or_else_err m other = m

  -- A call that panics on `none`.
  abbrev pub or_panic : Option A → Outcome A
  or_panic none = panic
  or_panic (some a) = ok a

  -- The call comes to an end.
  abbrev pub Ends : Outcome A → Type ℓ
  Ends m = m ≢ out_of_fuel

-- The call returns a value or an error: it comes to an end and does not panic.
abbrev pub Returns {ℓ} : {A : Type ℓ} → Outcome A → Type 0
Returns (ok a) = Unit {0}
Returns (err e) = Unit {0}
Returns panic = ⊥
Returns out_of_fuel = ⊥

-- The value of the call, if it returns one, has the property.
abbrev pub Holds {ℓ μ} : {A : Type ℓ} → (A → Type μ) → Outcome A → Type μ
Holds P (ok a) = P a
Holds P _ = Unit {μ}

pub Holds-eq {ℓ μ} :
    {A : Type ℓ} (P : A → Type μ) (m : Outcome A) {a : A} → Holds P m → m ≡ ok a → P a
Holds-eq P m h e = subst (Holds P) e h

module _ {ℓ κ} {A : Type ℓ} {B : Type κ} where
  pub >>=-Ends :
      (m : Outcome A) (f : A → Outcome B)
      → Ends m
      → ((a : A) → m ≡ ok a → Ends (f a))
      → Ends (m >>= f)
  >>=-Ends (ok a) f h k = k a refl
  >>=-Ends (err e) f h k = λ q. cc
  >>=-Ends panic f h k = λ q. cc
  >>=-Ends out_of_fuel f h k = absurd (h refl)

  pub >>=-Returns :
      (m : Outcome A) (f : A → Outcome B)
      → Returns m
      → ((a : A) → m ≡ ok a → Returns (f a))
      → Returns (m >>= f)
  >>=-Returns (ok a) f h k = k a refl
  >>=-Returns (err e) f h k = tt
  >>=-Returns panic f h k = absurd h
  >>=-Returns out_of_fuel f h k = absurd h

  -- What every continuation establishes of its result holds of the result of the chain.
  pub >>=-Holds {μ} :
      (P : B → Type μ) (m : Outcome A) (f : A → Outcome B)
      → ((a : A) → Holds P (f a))
      → Holds P (m >>= f)
  >>=-Holds P (ok a) f h = h a
  >>=-Holds P (err e) f h = tt
  >>=-Holds P panic f h = tt
  >>=-Holds P out_of_fuel f h = tt

  pub >>=-eq-ok :
      (call : Outcome A) (next : A → Outcome B) {result : B}
      → (call >>= next) ≡ ok result
      → (value : A) × (call ≡ ok value) × (next value ≡ ok result)
  >>=-eq-ok panic next e = cc
  >>=-eq-ok out_of_fuel next e = cc
  >>=-eq-ok (err message) next e = cc
  >>=-eq-ok (ok value) next e = (value, refl, e)

module _ {ℓ} {A : Type ℓ} where
  pub ok-Ends : (a : A) → Ends (ok a)
  ok-Ends a q = cc

  pub err-Ends : (e : Error) → Ends {A = A} (err e)
  err-Ends e q = cc

  pub ok-injective : {a b : A} → ok a ≡ ok b → a ≡ b
  ok-injective e = cc

  pub ok_or-eq-ok : (o : Option A) (e : Error) {a : A} → ok_or o e ≡ ok a → o ≡ some a
  ok_or-eq-ok none e h = cc
  ok_or-eq-ok (some b) e h = cc

  pub to_option-ok_or : (o : Option A) (e : Error) → to_option (ok_or o e) ≡ o
  to_option-ok_or none e = refl
  to_option-ok_or (some b) e = refl

  pub ok_or-Ends : (o : Option A) (e : Error) → Ends (ok_or o e)
  ok_or-Ends none e q = cc
  ok_or-Ends (some a) e q = cc

  pub ok_or-Returns : (o : Option A) (e : Error) → Returns (ok_or o e)
  ok_or-Returns none e = tt
  ok_or-Returns (some a) e = tt

  pub or_panic-Ends : (o : Option A) → Ends (or_panic o)
  or_panic-Ends none q = cc
  or_panic-Ends (some a) q = cc
