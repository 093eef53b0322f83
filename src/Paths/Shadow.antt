-- ===== src/Paths/Shadow.antt =====
-- Shadow paths (QvrConvertToShadowCopyPath of VFSHooks.cpp): where the prefix goes.
use mac_osx_vfs_redirector.Base.{
  ℕ, zero, suc, ◌+◌, ◌≡◌, ◌≢◌, refl, ap, true, List, [], ◌∷◌, ◌++◌, ◌==◌, if◌then◌else◌, length,
  take, drop, arith, Bool-cases, inl, inr, ◌⊎◌, length-append, All,
}
use mac_osx_vfs_redirector.Paths.{
  slash, equal_ignoring_case, shadow_prefix, byte_at, name_start, convert_to_shadow_copy_path,
}
use mathlib.Core.List.{append_assoc}
use native.Mathlib.Nat.{zero-add, add-zero, add_assoc, add-suc, suc-add}
use native.Mathlib.Numerals.{add-one}

-- A file name: no slash in it.
abbrev pub NoSlash : List ℕ → Type 0
NoSlash = All (λ c. c ≢ slash)

-- The part of a path in front of its file name: empty, or ending in a slash.
abbrev pub IsDirectory : List ℕ → Type 0
IsDirectory d = (d ≡ []) ⊎ ((e : List ℕ) × (d ≡ e ++ slash ∷ []))

take-append {ℓ} : {A : Type ℓ} (xs ys : List A) → take (length xs) (xs ++ ys) ≡ xs
take-append [] ys = refl
take-append (x ∷ xs) ys = rw (take-append xs ys)

drop-append {ℓ} : {A : Type ℓ} (xs ys : List A) → drop (length xs) (xs ++ ys) ≡ ys
drop-append [] ys = refl
drop-append (x ∷ xs) ys = drop-append xs ys

byte_at-append : (d s : List ℕ) (i : ℕ) → byte_at (d ++ s) (length d + i) ≡ byte_at s i
unfolding byte_at
byte_at-append [] s i = rw zero-add
byte_at-append (c ∷ d) s i = rw (suc-add (length d) i) (byte_at-append d s i)

byte_at-NoSlash : (s : List ℕ) (i : ℕ) → NoSlash s → byte_at s i ≢ slash
unfolding byte_at
byte_at-NoSlash [] i h = omega arith
byte_at-NoSlash (c ∷ s) zero h = h.0
byte_at-NoSlash (c ∷ s) (suc i) h = byte_at-NoSlash s i h.1

name_start_at : (d s : List ℕ) → IsDirectory d → name_start (d ++ s) (length d) ≡ length d
unfolding name_start
name_start_at d s (inl e) = rw e
name_start_at d s (inr (e, h)) =
    rw (h, append_assoc e (slash ∷ []) s, length-append e (slash ∷ []), add-one (length e))
      (ground (arith, byte_at-append e (slash ∷ s) 0))

-- The backward scan stops behind the directory part, from wherever in the name it starts.
name_start-append :
    (d s : List ℕ) (k : ℕ)
    → IsDirectory d
    → NoSlash s
    → name_start (d ++ s) (length d + k) ≡ length d
unfolding name_start
name_start-append d s zero dir h = rw add-zero (name_start_at d s dir)
name_start-append d s (suc k) dir h =
    rw (add-suc (length d) k)
      (ground (arith, byte_at-append d s k, byte_at-NoSlash s k h, name_start-append d s k dir h))

-- For a path that is a directory part and a file name, the shadow path has the prefix in front of
-- the name, unless the name begins with it in upper or lower case: then it is the path itself.
pub convert_to_shadow_copy_path_lem :
    (d name : List ℕ)
    → IsDirectory d
    → NoSlash name
    → convert_to_shadow_copy_path (d ++ name) ≡ (
        if equal_ignoring_case (length shadow_prefix) name shadow_prefix
        then d ++ name
        else d ++ (shadow_prefix ++ name))
unfolding convert_to_shadow_copy_path
convert_to_shadow_copy_path_lem d name dir h = rw (
  length-append d name,
  add_assoc (length d) (length name) 1,
  name_start-append d name (length name + 1) dir h,
  take-append d name,
  drop-append d name,
)

-- Every path is a directory part and a file name.
pub record Split (p : List ℕ) : Type 0 where
  pub directory : List ℕ
  pub name : List ℕ
  pub is_directory : IsDirectory directory
  pub no_slash : NoSlash name
  pub joined : p ≡ directory ++ name

IsDirectory-cons : (c : ℕ) (d : List ℕ) → c ≡ slash ⊎ d ≢ [] → IsDirectory d → IsDirectory (c ∷ d)
IsDirectory-cons c d (inl e) (inl h) = inr ([], rw (h, e))
IsDirectory-cons c d (inr n) (inl h) = absurd (n h)
IsDirectory-cons c d u (inr (e, h)) = inr (c ∷ e, rw h)

Split-cons : (c : ℕ) (p : List ℕ) → Split p → Split (c ∷ p)
Split-cons c p s = go s.directory refl
  where
    go : (d : List ℕ) → s.directory ≡ d → Split (c ∷ p)
    go [] e = elim (Bool-cases (c == slash)) [
      | inl is_slash ↦ record {
        directory = c ∷ [];
        name = s.name;
        is_directory = inr ([], ground (arith, is_slash));
        no_slash = s.no_slash;
        joined = rw (s.joined, e);
      }
      | inr other ↦ record {
        directory = [];
        name = c ∷ s.name;
        is_directory = inl refl;
        no_slash = (ground (arith, other), s.no_slash);
        joined = rw (s.joined, e);
      }
    ]
    go (x ∷ d) e = record {
      directory = c ∷ s.directory;
      name = s.name;
      is_directory = IsDirectory-cons c s.directory (inr (λ h. cc)) s.is_directory;
      no_slash = s.no_slash;
      joined = ap (◌∷◌ c) s.joined;
    }

pub split : (p : List ℕ) → Split p
split [] = record {
  directory = [];
  name = [];
  is_directory = inl refl;
  no_slash = tt;
  joined = refl;
}
split (c ∷ p) = Split-cons c p (split p)

prefixed_name : (name : List ℕ) → equal_ignoring_case 4 (shadow_prefix ++ name) shadow_prefix ≡ true
unfolding equal_ignoring_case
prefixed_name name = refl

shadow_prefix-NoSlash : (name : List ℕ) → NoSlash name → NoSlash (shadow_prefix ++ name)
shadow_prefix-NoSlash name h = (omega arith, (omega arith, (omega arith, (omega arith, h))))

-- Converting a shadow path again changes nothing, for any path.
pub convert_to_shadow_copy_path_idempotent :
    (p : List ℕ)
    → convert_to_shadow_copy_path (convert_to_shadow_copy_path p) ≡ convert_to_shadow_copy_path p
convert_to_shadow_copy_path_idempotent p =
    let s = split p in
    let first = convert_to_shadow_copy_path_lem s.directory s.name s.is_directory s.no_slash in
    let second =
      convert_to_shadow_copy_path_lem s.directory (shadow_prefix ++ s.name) s.is_directory
        (shadow_prefix-NoSlash s.name s.no_slash) in
    rw s.joined
      (elim (Bool-cases (equal_ignoring_case (length shadow_prefix) s.name shadow_prefix)) [
        | inl already ↦ rw (first, already, first, already) refl
        | inr fresh ↦ rw (first, fresh, second, prefixed_name s.name) refl
      ])
