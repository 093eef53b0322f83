-- ===== src/Paths/Redirect.antt =====
-- VFSFilter0/VFSFilter0/VFSHooks.cpp 67-285: the redirected path of a file, and the sizes of the
-- buffers that the conversions allocate.
use mac_osx_vfs_redirector.Base.{
  ℕ, zero, suc, ◌+◌, ◌≤◌, ◌≡◌, ◌≢◌, refl, ap, ◌∙◌, true, false, List, [], ◌∷◌, ◌++◌, map, ◌==◌, All,
  length, length-append, take, drop, arith, Bool-cases, inl, inr,
}
use mac_osx_vfs_redirector.Paths.Shadow.{NoSlash}
use mac_osx_vfs_redirector.Paths.{
  slash, shadow_prefix, name_start, equal_ignoring_case, convert_to_shadow_copy_path, skip_slashes,
  replace_slash, flatten_directories, slash_required, convert_to_redirected_path,
  redirected_path_size, shadow_path_size,
}

length-map-replace : (s : List ℕ) → length (map replace_slash s) ≡ length s
length-map-replace [] = refl
length-map-replace (c ∷ s) = omega (arith, length-map-replace s)

length-flatten : (s : List ℕ) → length (flatten_directories s) ≡ length s
unfolding flatten_directories
length-flatten [] = refl
length-flatten (c ∷ s) = ground (arith, length-flatten s, length-map-replace s)

length-skip : (s : List ℕ) → length (skip_slashes s) ≤ length s
unfolding skip_slashes
length-skip [] = omega arith
length-skip (c ∷ s) = ground (arith, length-skip s)

-- The path and its terminating zero fit into the buffer that is allocated for them, with 3 bytes to
-- spare, and with no more than that where a directory is given.
pub length-convert_to_redirected_path :
    (file dir : List ℕ)
    → (length (convert_to_redirected_path file dir) + 4 ≤ redirected_path_size file dir)
      × (dir ≢ []
          → length (convert_to_redirected_path file dir) + 4 ≡ redirected_path_size file dir)
unfolding convert_to_redirected_path redirected_path_size
length-convert_to_redirected_path file [] =
    (omega (arith, length-flatten (skip_slashes file), length-skip file), λ h. elim (h refl) [ ])
length-convert_to_redirected_path file (d ∷ dir) =
    let size = length-flatten file in
    elim (Bool-cases (slash_required file (d ∷ dir))) [
      | inl added ↦
          let all = length-append dir (slash ∷ flatten_directories file) in
          rw added (omega (arith, size, all), λ h. omega (arith, size, all))
      | inr kept ↦
          let all = length-append dir (flatten_directories file) in
          rw kept (omega (arith, size, all), λ h. omega (arith, size, all))
    ]

map_replace-NoSlash : (s : List ℕ) → NoSlash (map replace_slash s)
map_replace-NoSlash [] = tt
map_replace-NoSlash (c ∷ s) = (ground arith, map_replace-NoSlash s)

-- slashes, and a name behind them that holds none
record Flat (s : List ℕ) : Type 0 where
  slashes : List ℕ
  name : List ℕ
  only_slashes : All (λ c. c ≡ slash) slashes
  no_slash : NoSlash name
  joined : s ≡ slashes ++ name

flatten-Flat : (s : List ℕ) → Flat (flatten_directories s)
unfolding flatten_directories
flatten-Flat [] = record {
  slashes = [];
  name = [];
  only_slashes = tt;
  no_slash = tt;
  joined = refl;
}
flatten-Flat (c ∷ s) = elim (Bool-cases (c == slash)) [
  | inl is_slash ↦
      let rest = flatten-Flat s in
      record {
        slashes = c ∷ rest.slashes;
        name = rest.name;
        only_slashes = (ground (arith, is_slash), rest.only_slashes);
        no_slash = rest.no_slash;
        joined = rw is_slash (ap (◌∷◌ c) rest.joined);
      }
  | inr other ↦ record {
    slashes = [];
    name = map replace_slash (c ∷ s);
    only_slashes = tt;
    no_slash = map_replace-NoSlash (c ∷ s);
    joined = rw other;
  }
]

same_byte : (c b : ℕ) → (c == b) ≡ true → c ≡ b
same_byte c b h = ground (arith, h)

required :
    (c : ℕ) (file : List ℕ) (d : ℕ) (dir : List ℕ)
    → (c == slash) ≡ false
    → convert_to_redirected_path (c ∷ file) (d ∷ dir)
      ≡ (d ∷ dir) ++ (slash ∷ flatten_directories (c ∷ file))
unfolding convert_to_redirected_path slash_required
required c file d dir h = rw h refl

-- Where a directory is given, the redirected path of a file whose path is not empty is that directory,
-- a slash at least, and one name without slashes.
pub convert_to_redirected_path-inside :
    (file dir : List ℕ)
    → file ≢ []
    → dir ≢ []
    → (slashes : List ℕ) × (name : List ℕ) × All (λ c. c ≡ slash) slashes
      × NoSlash name
      × (convert_to_redirected_path file dir ≡ dir ++ (slash ∷ (slashes ++ name)))
unfolding convert_to_redirected_path slash_required flatten_directories
convert_to_redirected_path-inside file [] f h = elim (h refl) [ ]
convert_to_redirected_path-inside [] (d ∷ dir) f h = elim (f refl) [ ]
convert_to_redirected_path-inside (c ∷ file) (d ∷ dir) f h = elim (Bool-cases (c == slash)) [
  | inl is_slash ↦
      let flat = flatten-Flat file in
      (
        flat.slashes,
        flat.name,
        flat.only_slashes,
        flat.no_slash,
        rw is_slash (
            ap (λ x. (d ∷ dir) ++ (x ∷ flatten_directories file)) (same_byte c slash is_slash)
            ∙ ap (λ s. (d ∷ dir) ++ (slash ∷ s)) flat.joined),
      )
  | inr other ↦
      let flat = flatten-Flat (c ∷ file) in
      (
        flat.slashes,
        flat.name,
        flat.only_slashes,
        flat.no_slash,
        required c file d dir other ∙ ap (λ s. (d ∷ dir) ++ (slash ∷ s)) flat.joined,
      )
]

not_slash : (c : ℕ) → c ≢ slash → (c == slash) ≡ false
not_slash c h = ground (arith, h)

-- Two files whose paths begin with a slash and one other byte, and behind it differ in slashes and
-- dollars only, share a redirected path.
pub convert_to_redirected_path-collision :
    (c : ℕ) (s t dir : List ℕ)
    → c ≢ slash
    → map replace_slash s ≡ map replace_slash t
    → convert_to_redirected_path (slash ∷ c ∷ s) dir
      ≡ convert_to_redirected_path (slash ∷ c ∷ t) dir
unfolding convert_to_redirected_path
convert_to_redirected_path-collision c s t [] real same =
    let other = not_slash c real in simp (other, same)
convert_to_redirected_path-collision c s t (d ∷ dir) real same =
    let other = not_slash c real in simp (other, same)

length-take-drop : (n : ℕ) (s : List ℕ) → length (take n s) + length (drop n s) ≡ length s
length-take-drop zero s = omega arith
length-take-drop (suc n) [] = omega arith
length-take-drop (suc n) (c ∷ s) = omega (arith, length-take-drop n s)

-- The shadow path and its terminating zero fit into the buffer that is allocated for them.
pub length-convert_to_shadow_copy_path :
    (path : List ℕ) → length (convert_to_shadow_copy_path path) + 1 ≤ shadow_path_size path
unfolding convert_to_shadow_copy_path shadow_path_size
length-convert_to_shadow_copy_path path =
    let pos = name_start path (length path + 1) in
    elim (Bool-cases (equal_ignoring_case (length shadow_prefix) (drop pos path) shadow_prefix)) [
      | inl already ↦ rw already (omega arith)
      | inr fresh ↦ rw fresh (
          omega (
            arith,
            length-take-drop pos path,
            length-append (take pos path) (shadow_prefix ++ drop pos path),
          ))
    ]
