-- ===== src/Nvs/Memory.antt =====
-- A store in memory, which meets the assumptions.
use mathlib.Core.Option.{some-injective}
use winegrid_internship.Base.{
  true, false, ◌&&◌, Bool-cases, inl, inr, if◌then◌else◌, Option, none, some, Bytes, ◌≡◌, refl, ap,
  sym,
}
use winegrid_internship.Nvs.{Key, key_eq, fit, Nvs}

abbrev pub Map : Type 0
Map = Key → Option Bytes

abbrev pub put : Map → Key → Option Bytes → Map
put m k v j = if key_eq k j then v else m j

pub put-stored :
    (m n : Map) (k j : Key) (v : Bytes)
    → some (put m k (some v)) ≡ some n
    → n j ≡ (if key_eq k j then some v else m j)
put-stored m n k j v e = ap (λ (t : Map). t j) (sym (some-injective _ _ e))

pub put-erased : (m : Map) (k j : Key) → put m k none j ≡ (if key_eq k j && true then none else m j)
put-erased m k j = elim (Bool-cases (key_eq k j)) [
  | inl same ↦ rw same refl
  | inr other ↦ rw other refl
]

pub open_not_closed : {o : Option Bytes} → true ≡ false → o ≡ none
open_not_closed h = cc

-- A store in memory.
abbrev pub map_nvs : Nvs
map_nvs = record {
  Store = Map;
  stored = λ m k. m k;
  opens_ro = λ m. true;
  opens_rw = λ m. true;
  get_str = λ m k size. fit size (m k);
  set_str = λ m k v. some (put m k (some v));
  erase_key = λ m k. put m k none;
  erases = λ m k. true;
  get_str_lem = λ m k size. refl;
  stored-closed = λ m k h. open_not_closed h;
  opens_ro-set = λ m n k v e. refl;
  opens_rw-set = λ m n k v e. refl;
  stored-set = put-stored;
  opens_rw-erase = λ m k. refl;
  stored-erase = put-erased;
}

abbrev pub empty_map : Map
empty_map k = none
