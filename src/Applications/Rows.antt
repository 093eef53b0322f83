-- ===== src/Applications/Rows.antt =====
-- The two rows of `gApplicationsData` (ApplicationsData.cpp), as the hooks rely on them.
use mac_osx_vfs_redirector.Base.{
  ℕ, ◌≡◌, refl, Bool, true, false, some, List, same_bytes, codes, Bool-cases, inl, inr, ◌⊎◌,
}
use mac_osx_vfs_redirector.Applications.{
  create_new, open_existing, ApplicationData, application_data_at, get_application_data_by_name,
}

abbrev pub EntryFor : List ℕ → Bool → ℕ → Type 0
EntryFor name io p =
    (a : ApplicationData) × (application_data_at p ≡ some a)
    × (same_bytes name a.application_short_name ≡ true)
    × (a.redirect_io ≡ io)

abbrev pub SameDirectory : ℕ → ℕ → Type 0
SameDirectory p q =
    (a b : ApplicationData)
    → application_data_at p ≡ some a
    → application_data_at q ≡ some b
    → a.redirect_to ≡ b.redirect_to

-- A process name is found in both rows or in neither. The entry found has that name; the one in the
-- row ADT_CreateNew redirects I/O, the one in the row ADT_OpenExisting does not, and both redirect
-- to one directory.
pub get_application_data_by_name_rows :
    (name : List ℕ)
    → let p = get_application_data_by_name name create_new in
      let q = get_application_data_by_name name open_existing in
      ((p ≡ 0) × (q ≡ 0)) ⊎ (EntryFor name true p × EntryFor name false q × SameDirectory p q)
unfolding get_application_data_by_name application_data_at
get_application_data_by_name_rows name =
    elim (Bool-cases (same_bytes name (codes "Microsoft Word"))) [
      | inl word ↦ rw word (inr ((_, refl, word, refl), (_, refl, word, refl), λ a b p q. cc))
      | inr other ↦ elim (Bool-cases (same_bytes name (codes "Preview"))) [
        | inl preview ↦
            rw (other, preview)
              (inr ((_, refl, preview, refl), (_, refl, preview, refl), λ a b p q. cc))
        | inr neither ↦ elim (Bool-cases (same_bytes name (codes "AdobeReader"))) [
          | inl adobe ↦
              rw (other, neither, adobe)
                (inr ((_, refl, adobe, refl), (_, refl, adobe, refl), λ a b p q. cc))
          | inr unknown ↦ rw (other, neither, unknown) (inl (refl, refl))
        ]
      ]
    ]
