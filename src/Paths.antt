-- ===== src/Paths.antt =====
-- VFSFilter0/VFSFilter0/VFSHooks.cpp, the conversions of paths. A path here is the bytes before the
-- terminating zero.
pub mod Shadow
pub mod Redirect
use mac_osx_vfs_redirector.Base.{
  ℕ, zero, suc, ◌+◌, ◌-◌, Bool, true, false, List, [], ◌∷◌, ◌++◌, ◌&&◌, ◌||◌, not, map, ◌==◌, leb,
  if◌then◌else◌, length, take, drop, codes,
}

abbrev pub slash : ℕ
slash = b'/'

abbrev pub dollar : ℕ
dollar = b'$'

-- tolower, on ASCII
unfoldable pub to_lower : ℕ → ℕ
to_lower c = if leb b'A' c && leb c b'Z' then c + 32 else c

-- `0 == strncasecmp( s, t, n )`
unfoldable pub equal_ignoring_case : ℕ → List ℕ → List ℕ → Bool
unfolding to_lower
equal_ignoring_case zero s t = true
equal_ignoring_case (suc n) [] [] = true
equal_ignoring_case (suc n) [] (b ∷ t) = false
equal_ignoring_case (suc n) (a ∷ s) [] = false
equal_ignoring_case (suc n) (a ∷ s) (b ∷ t) = to_lower a == to_lower b && equal_ignoring_case n s t

-- `SHADOW_PREFIX`
abbrev pub shadow_prefix : List ℕ
shadow_prefix = codes ".QS_"

-- `s[i]`, and 0 at and behind the end
unfoldable pub byte_at : List ℕ → ℕ → ℕ
byte_at [] i = 0
byte_at (c ∷ s) zero = c
byte_at (c ∷ s) (suc i) = byte_at s i

-- `while( pos != (-1) && shadowPath[ pos ] != '/' ) pos -= 1; pos += 1;` for pos + 1: the place
-- behind the last slash
unfoldable pub name_start : List ℕ → ℕ → ℕ
unfolding byte_at
name_start s zero = 0
name_start s (suc pos) = if byte_at s pos == slash then suc pos else name_start s pos

-- `QvrConvertToShadowCopyPath`
unfoldable pub convert_to_shadow_copy_path : List ℕ → List ℕ
unfolding name_start equal_ignoring_case
convert_to_shadow_copy_path path =
    let pos = name_start path (length path + 1) in
    if equal_ignoring_case (length shadow_prefix) (drop pos path) shadow_prefix
    then path
    else take pos path ++ (shadow_prefix ++ drop pos path)

-- `QvrIsExtensionEqual`
unfoldable pub is_extension_equal : (path extension : List ℕ) → Bool
unfolding equal_ignoring_case
is_extension_equal path extension =
    if leb (length path) (length extension)
    then false
    else equal_ignoring_case (length extension) (drop (length path - length extension) path)
        extension

-- `while( '/' == file[ 0 ] ) file = &file[ 1 ];`
unfoldable pub skip_slashes : List ℕ → List ℕ
skip_slashes [] = []
skip_slashes (c ∷ s) = if c == slash then skip_slashes s else c ∷ s

abbrev pub replace_slash : ℕ → ℕ
replace_slash c = if c == slash then dollar else c

-- Both loops over the file's part: slashes in front stay, every later one becomes a dollar.
unfoldable pub flatten_directories : List ℕ → List ℕ
flatten_directories [] = []
flatten_directories (c ∷ s) =
    if c == slash then c ∷ flatten_directories s else map replace_slash (c ∷ s)

-- `slashRequired`
unfoldable pub slash_required : (file dir : List ℕ) → Bool
slash_required file [] = false
slash_required [] (d ∷ dir) = false
slash_required (c ∷ file) (d ∷ dir) = not (c == slash)

-- `QvrConvertToRedirectedPath`
unfoldable pub convert_to_redirected_path : (file dir : List ℕ) → List ℕ
unfolding skip_slashes flatten_directories slash_required
convert_to_redirected_path file [] = flatten_directories (skip_slashes file)
convert_to_redirected_path file (d ∷ dir) =
    (d ∷ dir)
    ++ ((if slash_required file (d ∷ dir) then slash ∷ [] else []) ++ flatten_directories file)

-- `nameBufferSize`, where `sizeof(L'\0')` is the size of a wide character, 4
unfoldable pub redirected_path_size : (file dir : List ℕ) → ℕ
unfolding slash_required
redirected_path_size file dir =
    length dir + (if slash_required file dir then 1 else 0) + length file + 4

-- `shadowPathSize`
unfoldable pub shadow_path_size : List ℕ → ℕ
shadow_path_size path = length path + length shadow_prefix + 1

-- `QvrConvertToShadowAndThenRedirectedPath`
unfoldable pub convert_to_shadow_and_then_redirected_path : (path dir : List ℕ) → List ℕ
unfolding convert_to_shadow_copy_path convert_to_redirected_path
convert_to_shadow_and_then_redirected_path path dir =
    convert_to_redirected_path (convert_to_shadow_copy_path path) dir
