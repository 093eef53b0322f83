-- ===== src/DataMap.antt =====
-- VFSFilter0/VFSFilter0/RecursionEngine.h, class DataMap: a list of (key, data) entries under one
-- lock. Each method takes the lock for its whole access to the list, so a method is one step. The
-- list is held in the order of its forward links, so its head is `head.Flink`.
pub mod Laws
pub mod Refinement
use mac_osx_vfs_redirector.Base.{
  ℕ, zero, suc, ◌+◌, ◌≡◌, Bool, true, false, Option, none, some, List, [], ◌∷◌, ◌==◌, if◌then◌else◌,
  is_some,
}

-- Keys and data are pointers; `null` is NULL.
abbrev pub null : ℕ
null = 0

pub record Entry : Type 0 where
  pub key : ℕ
  pub value : ℕ

abbrev pub DataMap : Type 0
DataMap = List Entry

-- `findEntryByKey`: the first entry with the key.
unfoldable pub find_entry_by_key : ℕ → DataMap → Option Entry
find_entry_by_key k [] = none
find_entry_by_key k (e ∷ m) = if e.key == k then some e else find_entry_by_key k m

-- `existingEntry->data = data` at the entry that `find_entry_by_key` returns
unfoldable pub set_existing : ℕ → ℕ → DataMap → DataMap
set_existing k d [] = []
set_existing k d (e ∷ m) =
    if e.key == k then record { key = e.key; value = d } ∷ m else e ∷ set_existing k d m

-- `RemoveEntryList` of the entry that `find_entry_by_key` returns
unfoldable pub remove_entry : ℕ → DataMap → DataMap
remove_entry k [] = []
remove_entry k (e ∷ m) = if e.key == k then m else e ∷ remove_entry k m

-- `addDataByKey`; `allocated` says whether IOMalloc gave memory for the new entry.
unfoldable pub add_data_by_key : (allocated : Bool) → ℕ → ℕ → DataMap → Bool × DataMap
unfolding find_entry_by_key set_existing
add_data_by_key false k d m = (false, m)
add_data_by_key true k d m =
    if is_some (find_entry_by_key k m)
    then (true, set_existing k d m)
    else (true, record { key = k; value = d } ∷ m)

unfoldable pub remove_key : ℕ → DataMap → DataMap
unfolding find_entry_by_key remove_entry
remove_key k m = if is_some (find_entry_by_key k m) then remove_entry k m else m

-- `removeFirstEntryAndReturnItsData`, which also hands out the key
unfoldable pub remove_first_entry_and_return_its_data : DataMap → (ℕ × ℕ) × DataMap
remove_first_entry_and_return_its_data [] = ((null, null), [])
remove_first_entry_and_return_its_data (e ∷ m) = ((e.key, e.value), m)

unfoldable pub get_data_by_key : ℕ → DataMap → ℕ
unfolding find_entry_by_key
get_data_by_key k m = elim (find_entry_by_key k m) [ none ↦ null | some e ↦ e.value ]

unfoldable pub is_empty : DataMap → Bool
is_empty [] = true
is_empty (_ ∷ _) = false
