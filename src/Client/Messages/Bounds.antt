-- ===== src/Client/Messages/Bounds.antt =====
-- What the messages hold: every string whole, within the bytes that are enqueued.
use mac_osx_vfs_redirector.Base.{
  ℕ, ◌+◌, ◌≤◌, ◌<◌, ◌≡◌, ◌≢◌, refl, subst, Option, none, some, [], ◌∷◌, All, length, arith,
}
use mac_osx_vfs_redirector.DataMap.{null}
use mac_osx_vfs_redirector.Event.{FilePath}
use mac_osx_vfs_redirector.Client.Messages.{
  Request, KernelData, Message, init_data, max_path_len, sizeof_data, copy_path, copy_optional,
  copy_or_get, message_of, strings, path_of, string_read, size_with, request_read,
}

-- `vn_getpath` fills at most the buffer that it is given, with the terminator.
abbrev pub StaysInBuffer : (ℕ → ℕ × FilePath) → Type 0
StaysInBuffer vn_getpath = (vn : ℕ) → length (vn_getpath vn).1 < max_path_len

copy_path-lt : (p : FilePath) → length (copy_path p) < max_path_len
unfolding copy_path
copy_path-lt p = ground arith

copy_optional-lt : (p : Option FilePath) → length (copy_optional p) < max_path_len
unfolding copy_optional
copy_optional-lt none = omega arith
copy_optional-lt (some p) = copy_path-lt p

copy_or_get-lt :
    (g : ℕ → ℕ × FilePath) (p : Option FilePath) (vn : ℕ)
    → StaysInBuffer g
    → length (copy_or_get g p vn) < max_path_len
unfolding copy_or_get
copy_or_get-lt g none vn h = ground (arith, h vn)
copy_or_get-lt g (some p) vn h = copy_path-lt p

abbrev Fits : Option (Message × ℕ) → Type 0
Fits none = Unit
Fits (some (m, size)) =
    (size ≤ sizeof_data) × All (λ (s : ℕ × FilePath). s.0 + length s.1 + 1 ≤ size) (strings m)

message_of-Fits : (g : ℕ → ℕ × FilePath) (d : KernelData) → StaysInBuffer g → Fits (message_of g d)
unfolding message_of
message_of-Fits g (KernelData.audit op error path vn redirected) h =
    ground (arith, copy_optional-lt redirected, copy_or_get-lt g path vn)
message_of-Fits g (KernelData.lookup id redirected path shadow vn from_create) h =
    ground (arith, copy_optional-lt shadow, copy_optional-lt redirected, copy_or_get-lt g path vn)
message_of-Fits g (KernelData.exchange id source target) h =
    ground (arith, copy_path-lt target, copy_path-lt source)
message_of-Fits g (KernelData.filter id op path) h = ground (arith, copy_path-lt path)
message_of-Fits g KernelData.unset h = tt

-- For every VFSData, however long its strings are, and a `vn_getpath` that stays in its buffer: a
-- message that is enqueued is not larger than VFSFilter0UserClientData, and holds each of its strings
-- whole, with the terminator.
pub message_fits :
    (vn_getpath : ℕ → ℕ × FilePath) (data_in : KernelData) {m : Message} {size : ℕ}
    → StaysInBuffer vn_getpath
    → message_of vn_getpath data_in ≡ some (m, size)
    → (size ≤ sizeof_data) × All (λ (s : ℕ × FilePath). s.0 + length s.1 + 1 ≤ size) (strings m)
message_fits g d h e = subst Fits e (message_of-Fits g d h)

-- A path that the client can be told: not empty, and short enough for its array.
abbrev pub IsTellable : Option FilePath → Type 0
IsTellable none = Unit
IsTellable (some p) = (p ≢ []) × (length p < max_path_len)

abbrev pub AreTellable : Request → Type 0
AreTellable (Request.lookup path redirected shadow _) =
    IsTellable path × IsTellable redirected × IsTellable shadow
AreTellable (Request.exchange source target) =
    (length source < max_path_len) × (length target < max_path_len)
AreTellable (Request.filter op path) = length path < max_path_len
AreTellable (Request.other _) = ⊥

copied : (p : FilePath) → length p < max_path_len → copy_path p ≡ p
unfolding copy_path
copied p h = ground arith

got_null-lt :
    (g : ℕ → ℕ × FilePath) (p : Option FilePath) → length (copy_or_get g p null) < max_path_len
unfolding copy_or_get
got_null-lt g none = omega arith
got_null-lt g (some p) = copy_path-lt p

told : (p : Option FilePath) → IsTellable p → path_of (copy_optional p) ≡ p
unfolding copy_optional
told none t = refl
told (some []) t = absurd (t.0 refl)
told (some (c ∷ p)) t = rw (copied (c ∷ p) t.1) refl

told_or_got :
    (g : ℕ → ℕ × FilePath) (p : Option FilePath) → IsTellable p → path_of (copy_or_get g p null) ≡ p
unfolding copy_or_get
told_or_got g none t = refl
told_or_got g (some []) t = absurd (t.0 refl)
told_or_got g (some (c ∷ p)) t = rw (copied (c ∷ p) t.1) refl

-- A string is read whose terminator is among the bytes.
read_whole :
    (size offset : ℕ) (p : FilePath)
    → offset + length p + 1 ≤ size
    → string_read size offset p ≡ some p
read_whole size offset p h = ground (arith, h)

-- The client reads the request that the hook made, with its id, from the bytes of the message that are
-- enqueued for it, when its opcode is one of the three that are sent, its paths are shorter than
-- MAXPATHLEN and those of a lookup are not empty. It reads a string only if its terminator is enqueued
-- too.
pub request-read_lem :
    (vn_getpath : ℕ → ℕ × FilePath) (id : ℕ) (r : Request)
    → AreTellable r
    → (m : Message) × (size : ℕ) × (message_of vn_getpath (init_data id r) ≡ some (m, size))
      × (size ≢ 0)
      × (request_read size m ≡ some (id, r))
unfolding message_of init_data request_read
request-read_lem g id (Request.lookup path redirected shadow from_create) t =
    let first : FilePath = copy_optional redirected in
    let second : FilePath = copy_or_get g path null in
    let third : FilePath = copy_optional shadow in
    let size : ℕ = size_with third in
    (
      _,
      _,
      refl,
      omega arith,
      rw
          (
            read_whole size 26 first (omega (arith, copy_optional-lt redirected)),
            read_whole size 1050 second (omega (arith, got_null-lt g path)),
            read_whole size 2074 third (omega arith),
            told_or_got g path t.0,
            told redirected t.1,
            told shadow t.2,
          )
          refl,
    )
request-read_lem g id (Request.exchange source target) t =
    let size : ℕ = size_with (copy_path target) in
    (
      _,
      _,
      refl,
      omega arith,
      rw
          (
            read_whole size 24 (copy_path source) (omega (arith, copy_path-lt source)),
            read_whole size 1048 (copy_path target) (omega arith),
            copied source t.0,
            copied target t.1,
          )
          refl,
    )
request-read_lem g id (Request.filter op path) t =
    let size : ℕ = size_with (copy_path path) in
    (
      _,
      _,
      refl,
      omega arith,
      rw (read_whole size 28 (copy_path path) (omega arith), copied path t) refl,
    )
request-read_lem g id (Request.other op) t = absurd t
