-- ===== src/DataMap/Laws.antt =====
-- What the methods of DataMap (RecursionEngine.h) promise: a finite map from keys to data.
use mac_osx_vfs_redirector.Base.{
  ℕ, ◌≡◌, ◌≢◌, refl, Bool, true, false, none, [], ◌∷◌, ◌==◌, if◌then◌else◌, is_some, arith,
  Bool-cases, inl, inr, ◌∙◌,
}
use mac_osx_vfs_redirector.DataMap.{
  null, DataMap, find_entry_by_key, set_existing, remove_entry, add_data_by_key, remove_key,
  remove_first_entry_and_return_its_data, get_data_by_key, is_empty,
}

-- No two entries have one key, and no entry has NULL for its data.
abbrev pub IsValid : DataMap → Type 0
IsValid [] = Unit
IsValid (e ∷ m) = (get_data_by_key e.key m ≡ null) × (e.value ≢ null) × IsValid m

find-of-null :
    (k : ℕ) (m : DataMap) → IsValid m → get_data_by_key k m ≡ null → find_entry_by_key k m ≡ none
unfolding get_data_by_key
find-of-null k [] v h = refl
find-of-null k (e ∷ m) v h = ground (arith, find-of-null k m v.2)

get-set_existing :
    (j k d : ℕ) (m : DataMap)
    → is_some (find_entry_by_key k m) ≡ true
    → get_data_by_key j (set_existing k d m) ≡ (if k == j then d else get_data_by_key j m)
unfolding get_data_by_key set_existing
get-set_existing j k d [] h = ground arith
get-set_existing j k d (e ∷ m) h = ground (arith, get-set_existing j k d m)

-- After `addDataByKey`, where memory is given, the key has the new data, and every other key what it
-- had.
pub get-add :
    (j k d : ℕ) (m : DataMap)
    → get_data_by_key j (add_data_by_key true k d m).1 ≡ (if k == j then d else get_data_by_key j m)
unfolding add_data_by_key get_data_by_key
get-add j k d m = elim (Bool-cases (is_some (find_entry_by_key k m))) [
  | inl old ↦ rw (old, add_data_by_key) (get-set_existing j k d m old)
  | inr new ↦ rw (new, add_data_by_key) (ground arith)
]

-- `addDataByKey` succeeds where memory is given.
pub add_succeeds : (k d : ℕ) (m : DataMap) → (add_data_by_key true k d m).0 ≡ true
unfolding add_data_by_key
add_succeeds k d m = ground arith

get-remove_entry :
    (j k : ℕ) (m : DataMap)
    → IsValid m
    → get_data_by_key j (remove_entry k m) ≡ (if k == j then null else get_data_by_key j m)
unfolding get_data_by_key remove_entry
get-remove_entry j k [] v = ground arith
get-remove_entry j k (e ∷ m) v = ground (arith, get-remove_entry j k m)

-- After `removeKey` on a valid map the key is gone, and every other key has what it had.
pub get-remove :
    (j k : ℕ) (m : DataMap)
    → IsValid m
    → get_data_by_key j (remove_key k m) ≡ (if k == j then null else get_data_by_key j m)
unfolding remove_key get_data_by_key
get-remove j k m v = elim (Bool-cases (is_some (find_entry_by_key k m))) [
  | inl old ↦ rw (old, remove_key) (get-remove_entry j k m v)
  | inr new ↦ rw (new, remove_key) (ground arith)
]

get-set_existing_ne :
    (j k d : ℕ) (m : DataMap)
    → (k == j) ≡ false
    → get_data_by_key j (set_existing k d m) ≡ get_data_by_key j m
unfolding get_data_by_key set_existing
get-set_existing_ne j k d [] h = refl
get-set_existing_ne j k d (e ∷ m) h = ground (arith, get-set_existing_ne j k d m)

set_existing-IsValid : (k d : ℕ) (m : DataMap) → d ≢ null → IsValid m → IsValid (set_existing k d m)
unfolding set_existing
set_existing-IsValid k d [] h v = tt
set_existing-IsValid k d (e ∷ m) h v = elim (Bool-cases (e.key == k)) [
  | inl here ↦ rw here (v.0, h, v.2)
  | inr later ↦
      rw later (
        get-set_existing_ne e.key k d m (ground arith) ∙ v.0,
        v.1,
        set_existing-IsValid k d m h v.2,
      )
]

-- Neither NULL data nor a second entry for a key comes in, if the caller obeys `assert( data )`.
pub add-IsValid :
    (a : Bool) (k d : ℕ) (m : DataMap) → d ≢ null → IsValid m → IsValid (add_data_by_key a k d m).1
unfolding add_data_by_key get_data_by_key
add-IsValid false k d m h v = v
add-IsValid true k d m h v = ground (arith, set_existing-IsValid k d m)

remove_entry-IsValid : (k : ℕ) (m : DataMap) → IsValid m → IsValid (remove_entry k m)
unfolding remove_entry
remove_entry-IsValid k [] v = tt
remove_entry-IsValid k (e ∷ m) v =
    ground (arith, remove_entry-IsValid k m, get-remove_entry e.key k m)

pub remove-IsValid : (k : ℕ) (m : DataMap) → IsValid m → IsValid (remove_key k m)
unfolding remove_key
remove-IsValid k m v = ground (arith, remove_entry-IsValid k m)

-- What `removeFirstEntryAndReturnItsData` hands out of a valid map that is not empty is what the map
-- held, and no NULL; it alone is gone, and the map stays valid.
pub get-remove_first :
    (j : ℕ) (m : DataMap)
    → is_empty m ≡ false
    → IsValid m
    → let r = remove_first_entry_and_return_its_data m in
      (get_data_by_key r.0.0 m ≡ r.0.1)
      × (r.0.1 ≢ null)
      × (get_data_by_key j r.1 ≡ (if r.0.0 == j then null else get_data_by_key j m))
      × IsValid r.1
unfolding remove_first_entry_and_return_its_data get_data_by_key is_empty
get-remove_first j [] h v = cc
get-remove_first j (e ∷ m) h v = (ground arith, v.1, ground arith, v.2)
