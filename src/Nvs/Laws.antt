-- ===== src/Nvs/Laws.antt =====
-- What the helpers guarantee together.
use winegrid_internship.Base.{
  ℕ, Bool, true, false, ◌&&◌, if◌then◌else◌, Option, none, some, Bytes, ◌≡◌, refl, ◌∙◌, Bool-cases,
  inl, inr,
}
use winegrid_internship.Nvs.{Key, key_eq, fit, Nvs, load_nvs_str, save_nvs_str, erase_nvs_key}

fit-if :
    (size : ℕ) (b : Bool) (x y : Option Bytes)
    → fit size (if b then x else y) ≡ (if b then fit size x else fit size y)
fit-if size true x y = refl
fit-if size false x y = refl

fit-if-if :
    (size : ℕ) (b : Bool) (x y : Option Bytes)
    → fit size (if b then none else if b then x else y) ≡ (if b then none else fit size y)
fit-if-if size true x y = refl
fit-if-if size false x y = refl

module _ (nvs : Nvs) where
  open nvs use {
    Store, stored, opens_ro, opens_rw, get_str_lem, stored-closed, opens_ro-set, opens_rw-set,
    stored-set, stored-erase, opens_rw-erase,
  }

  pub load-stored :
      (s : Store) (k : Key) (size : ℕ) → load_nvs_str nvs s k size ≡ fit size (stored s k)
  unfolding load_nvs_str
  load-stored s k size = elim (Bool-cases (opens_ro s)) [
    | inl o ↦ rw o (get_str_lem s k size)
    | inr c ↦ rw (c, stored-closed s k c)
  ]

  pub save-set :
      (s t : Store) (k : Key) (v : Bytes)
      → save_nvs_str nvs s k v ≡ some t
      → (opens_rw s ≡ true) × (nvs.set_str s k v ≡ some t)
  unfolding save_nvs_str
  save-set s t k v e = elim (Bool-cases (opens_rw s)) [
    | inl o ↦ (o, rw o at e)
    | inr c ↦ absurd (none-some (rw c at e))
  ]
    where
      none-some : {x : Store} → none ≡ some x → ⊥
      none-some h = cc

  pub stored-save :
      (s t : Store) (k j : Key) (v : Bytes)
      → save_nvs_str nvs s k v ≡ some t
      → stored t j ≡ (if key_eq k j then some v else stored s j)
  stored-save s t k j v e = stored-set s t k j v (save-set s t k v e).1

  pub opens_rw-save :
      (s t : Store) (k : Key) (v : Bytes) → save_nvs_str nvs s k v ≡ some t → opens_rw t ≡ true
  opens_rw-save s t k v e = opens_rw-set s t k v (save-set s t k v e).1 ∙ (save-set s t k v e).0

  pub stored-erase_nvs :
      (s : Store) (k j : Key)
      → opens_rw s ≡ true
      → stored (erase_nvs_key nvs s k) j
        ≡ (if key_eq k j && nvs.erases s k then none else stored s j)
  unfolding erase_nvs_key
  stored-erase_nvs s k j o = rw o (stored-erase s k j)

  -- Where the key can be erased.
  erased :
      (s : Store) (k j : Key)
      → opens_rw s ≡ true
      → nvs.erases s k ≡ true
      → stored (erase_nvs_key nvs s k) j ≡ (if key_eq k j then none else stored s j)
  erased s k j o e =
      stored-erase_nvs s k j o
      ∙ rw e
          (elim (Bool-cases (key_eq k j)) [ inl same ↦ rw same refl | inr other ↦ rw other refl ])

  -- A string that was saved is loaded into every buffer that has room for it and its NUL, and into
  -- no other; the other keys load as before. Erasing a key after that, where it can be erased, makes
  -- it load nowhere, and leaves the other keys.
  pub load-save :
      (s t : Store) (k j : Key) (v : Bytes) (size : ℕ)
      → save_nvs_str nvs s k v ≡ some t
      → (load_nvs_str nvs t j size
          ≡ (if key_eq k j then fit size (some v) else load_nvs_str nvs s j size))
        × (nvs.erases t k ≡ true
            → load_nvs_str nvs (erase_nvs_key nvs t k) j size
              ≡ (if key_eq k j then none else load_nvs_str nvs s j size))
  load-save s t k j v size e = (
    rw (load-stored t j size, load-stored s j size, stored-save s t k j v e)
        (fit-if size (key_eq k j) (some v) (stored s j)),
    λ can.
        rw
          (
            load-stored (erase_nvs_key nvs t k) j size,
            load-stored s j size,
            erased t k j (opens_rw-save s t k v e) can,
            stored-save s t k j v e,
          )
          (fit-if-if size (key_eq k j) (some v) (stored s j)),
  )
