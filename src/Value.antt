-- ===== src/Value.antt =====
-- Python's values as far as the payloads of MeshPay hold them: `None`, whole numbers, floats, texts,
-- lists and dicts with text keys. A float is a whole number of microseconds (times are the only
-- floats). Errors are values.
use meshpay.Base.{Option, none, some, String, Bool, true, false, ℤ, scale, ◌==◌, if◌then◌else◌}

mutual
  pub data Fields : Type 0 where
    field : String → Value → Fields → Fields
    end : Fields

  pub data Items : Type 0 where
    cons : Value → Items → Items
    nil : Items

  pub data Value : Type 0 where
    obj : Fields → Value
    arr : Items → Value
    text : String → Value
    real : ℤ → Value
    int : ℤ → Value
    null : Value

-- The exceptions that the modelled code raises; `out_of_fuel` is no exception, but a loop that has
-- not ended within the model's fuel.
pub data Error : Type 0 where
  value_error key_error type_error runtime_error out_of_fuel : Error

pub data Result {ℓ} (T : Type ℓ) : Type ℓ where
  err : Error → Result T
  ok : T → Result T

infixl 5 ◌>>=◌ ◌>>◌
abbrev pub ◌>>=◌ {κ ℓ} : {S : Type κ} {T : Type ℓ} → Result S → (S → Result T) → Result T
err e >>= next = err e
ok s >>= next = next s

abbrev pub ◌>>◌ {κ ℓ} : {S : Type κ} {T : Type ℓ} → Result S → Result T → Result T
first >> second = first >>= λ _. second

abbrev pub map_ok {ℓ κ} : {A : Type ℓ} {B : Type κ} → (A → B) → Result A → Result B
map_ok f (ok a) = ok (f a)
map_ok f (err e) = err e

abbrev pub raise_if : Bool → Error → Result (Unit {0})
raise_if false e = ok tt
raise_if true e = err e

abbrev pub or_raise {ℓ} : {A : Type ℓ} → Option A → Error → Result A
or_raise none e = err e
or_raise (some a) e = ok a

-- `data.get(key)`
abbrev pub get : String → Fields → Option Value
get k end = none
get k (field j v fs) = if j == k then some v else get k fs

-- `key in data`
abbrev pub has_field : String → Fields → Bool
has_field k fs = elim (get k fs) [ none ↦ false | some _ ↦ true ]

-- `data[key]`
abbrev pub item : String → Fields → Result Value
item k fs = or_raise (get k fs) key_error

-- `data.get(key, default)`
abbrev pub get_default : String → Value → Fields → Value
get_default k v fs = elim (get k fs) [ none ↦ v | some w ↦ w ]

-- `data[key] = value`
abbrev pub put : String → Value → Fields → Fields
put k v end = field k v end
put k v (field j w fs) = if j == k then field j v fs else field j w (put k v fs)

-- Microseconds of a whole number of seconds.
abbrev pub seconds : ℤ → ℤ
seconds n = scale 1_000_000 n

-- A value that the code reads as a dict.
abbrev pub as_fields : Value → Result Fields
as_fields (obj fs) = ok fs
as_fields _ = err type_error

-- A value that the code iterates as a list.
abbrev pub as_items : Value → Result Items
as_items (arr xs) = ok xs
as_items _ = err type_error
