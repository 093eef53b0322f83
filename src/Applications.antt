-- ===== src/Applications.antt =====
-- VFSFilter0/VFSFilter0/ApplicationsData.h and ApplicationsData.cpp: the controlled applications.
pub mod Rows
use Prim.Native.String.{String}
use mac_osx_vfs_redirector.Base.{
  ℕ, zero, suc, ◌+◌, ◌++◌, get_elem?, Option, none, some, Bool, true, false, List, [], ◌∷◌,
  if◌then◌else◌, codes, same_bytes,
}

-- `ApplicationDataType` without its count
pub data Adt : Type 0 where
  create_new open_existing : Adt

pub record ApplicationData : Type 0 where
  pub application_short_name : List ℕ
  pub redirect_to : List ℕ
  pub redirect_io : Bool

abbrev entry : String → String → Bool → ApplicationData
entry name to io = record {
  application_short_name = codes name;
  redirect_to = codes to;
  redirect_io = io;
}

-- `gApplicationsData`
abbrev pub g_applications_data : Adt → List ApplicationData
g_applications_data create_new =
    entry "Microsoft Word" "/work1/my_word" true
    ∷ entry "Preview" "/work1/my_preview" true
    ∷ entry "AdobeReader" "/work1/my_adobe" true
    ∷ []
g_applications_data open_existing =
    entry "Microsoft Word" "/work1/my_word" false
    ∷ entry "Preview" "/work1/my_preview" false
    ∷ entry "AdobeReader" "/work1/my_adobe" false
    ∷ []

-- A pointer into the table is 0 for NULL, and else 1 and the entry's place, row after row.
abbrev row : Adt → ℕ
row create_new = 0
row open_existing = 3

-- `&gApplicationsData[type][i]`
abbrev pub entry_address : Adt → ℕ → ℕ
entry_address t i = row t + i + 1

-- `*p`; `none` at NULL and outside the table
unfoldable pub application_data_at : ℕ → Option ApplicationData
application_data_at zero = none
application_data_at (suc n) =
    get_elem? (g_applications_data create_new ++ g_applications_data open_existing) n

find_name : Adt → List ℕ → List ApplicationData → ℕ → ℕ
find_name t name [] i = 0
find_name t name (a ∷ l) i =
    if same_bytes name a.application_short_name
    then entry_address t i
    else find_name t name l (i + 1)

-- `QvrGetApplicationDataByName`, a loop over the row
unfoldable pub get_application_data_by_name : List ℕ → Adt → ℕ
unfolding find_name
get_application_data_by_name name t = find_name t name (g_applications_data t) 0

-- `QvrGetApplicationDataByContext`, with the name that proc_name gave for the context's process;
-- `none` if no OSSymbol could be made of it
unfoldable pub get_application_data_by_context : Option (List ℕ) → Adt → ℕ
get_application_data_by_context none t = 0
get_application_data_by_context (some name) t = get_application_data_by_name name t
