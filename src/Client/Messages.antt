-- ===== src/Client/Messages.antt =====
-- VFSFilter0/VFSFilter0/VFSFilter0UserClient.cpp: the VFSData that `preOperationCallbackAndWaitForReply`
-- builds, and `sendVFSDataToClient`, which makes the client's message of it; the layout of the message
-- is that of VFSFilter0UserClientInterface.h for x86_64. A message is given by the fields that its type
-- and operation use, its strings without their terminating zero and the rest of their arrays.
pub mod Bounds
use mac_osx_vfs_redirector.Base.{
  ℕ, ◌+◌, ◌-◌, Bool, Option, none, some, List, [], ◌∷◌, ◌++◌, ◌==◌, leb, length, if◌then◌else◌,
}
use mac_osx_vfs_redirector.DataMap.{null}
use mathlib.Core.Option.{bind as ◌>>=◌}
use mac_osx_vfs_redirector.Event.{FilePath, Opcode}

-- The request of a hook, `QvrPreOperationCallback`; its pointers may be NULL only where the code tests
-- them. `other` is any other opcode.
pub data Request : Type 0 where
  lookup :
      (path_to_lookup redirected_path shadow_path : Option FilePath) (from_create : Bool) → Request
  exchange : (source target : FilePath) → Request
  filter : (op : Opcode) (path : FilePath) → Request
  other : Opcode → Request

-- `VFSData`. `unset` is a VFSData that nothing has initialised.
pub data KernelData : Type 0 where
  audit :
      (op : Opcode) (error : ℕ) (path : Option FilePath) (vn : ℕ) (redirected : Option FilePath)
      → KernelData
  lookup :
      (id : ℕ) (redirected path shadow : Option FilePath) (vn : ℕ) (from_create : Bool) → KernelData
  exchange : (id : ℕ) (source target : FilePath) → KernelData
  filter : (id : ℕ) (op : Opcode) (path : FilePath) → KernelData
  unset : KernelData

-- The switch of `preOperationCallbackAndWaitForReply`; VFSInitData leaves the vnode NULL.
unfoldable pub init_data : (id : ℕ) → Request → KernelData
init_data id (Request.lookup path redirected shadow from_create) =
    KernelData.lookup id redirected path shadow null from_create
init_data id (Request.exchange source target) = KernelData.exchange id source target
init_data id (Request.filter op path) = KernelData.filter id op path
init_data id (Request.other op) = KernelData.unset

-- `VFSFilter0UserClientData`
pub data Message : Type 0 where
  audit : (op : Opcode) (error : ℕ) (path redirected : FilePath) → Message
  lookup : (id : ℕ) (from_create : Bool) (redirected path shadow : FilePath) → Message
  exchange : (id : ℕ) (source target : FilePath) → Message
  filter : (id : ℕ) (op : Opcode) (path : FilePath) → Message

-- MAXPATHLEN, the size of every array of a path, and `sizeof(VFSFilter0UserClientData)`
abbrev pub max_path_len : ℕ
max_path_len = 1024

abbrev pub sizeof_data : ℕ
sizeof_data = 3104

-- A string copied with its terminator into an array of a path, or nothing if it does not fit: the
-- array begins with a zero then.
unfoldable pub copy_path : FilePath → FilePath
copy_path p = if leb (length p + 1) max_path_len then p else []

unfoldable pub copy_optional : Option FilePath → FilePath
unfolding copy_path
copy_optional none = []
copy_optional (some p) = copy_path p

-- A path that is given, or else that of the vnode, by `vn_getpath`
unfoldable pub copy_or_get : (ℕ → ℕ × FilePath) → Option FilePath → (vn : ℕ) → FilePath
unfolding copy_path
copy_or_get vn_getpath (some p) vn = copy_path p
copy_or_get vn_getpath none vn =
    let (error, path) = vn_getpath vn in if vn == null then [] else if error == 0 then path else []

-- `sizeof( data ) - sizeof( last array )`, and the string in the last array with its terminator
abbrev pub size_with : FilePath → ℕ
size_with last = sizeof_data - max_path_len + (length last + 1)

-- `sendVFSDataToClient` up to the enqueue: the message and its size, none where the size is 0 or, for
-- an operation that the switch does not know, not initialised.
unfoldable pub message_of : (ℕ → ℕ × FilePath) → KernelData → Option (Message × ℕ)
unfolding copy_path copy_optional copy_or_get
message_of vn_getpath (KernelData.audit op error path vn redirected) = some (
  Message.audit op error (copy_or_get vn_getpath path vn) (copy_optional redirected),
  size_with (copy_optional redirected),
)
message_of vn_getpath (KernelData.lookup id redirected path shadow vn from_create) = some (
  Message.lookup id from_create (copy_optional redirected) (copy_or_get vn_getpath path vn)
      (copy_optional shadow),
  size_with (copy_optional shadow),
)
message_of vn_getpath (KernelData.exchange id source target) =
    some (Message.exchange id (copy_path source) (copy_path target), size_with (copy_path target))
message_of vn_getpath (KernelData.filter id op path) =
    some (Message.filter id op (copy_path path), size_with (copy_path path))
message_of vn_getpath KernelData.unset = none

-- Where the strings of a message stand in it: the offset of each array, and its string
abbrev pub strings : Message → List (ℕ × FilePath)
strings (Message.audit _ _ path redirected) = (16, path) ∷ (1040, redirected) ∷ []
strings (Message.lookup _ _ redirected path shadow) =
    (26, redirected) ∷ (1050, path) ∷ (2074, shadow) ∷ []
strings (Message.exchange _ source target) = (24, source) ∷ (1048, target) ∷ []
strings (Message.filter _ _ path) = (28, path) ∷ []

-- The request that a client reads from the `size` bytes of a message that are enqueued: a string
-- whose terminator is not among them cannot be read, and an array that begins with a zero is no path.
abbrev pub string_read : (size offset : ℕ) → FilePath → Option FilePath
string_read size offset p = if leb (offset + length p + 1) size then some p else none

abbrev pub path_of : FilePath → Option FilePath
path_of [] = none
path_of p = some p

unfoldable pub request_read : (size : ℕ) → Message → Option (ℕ × Request)
unfolding ◌>>=◌
request_read size (Message.audit _ _ _ _) = none
request_read size (Message.lookup id from_create redirected path shadow) = do
  r ← string_read size 26 redirected
  p ← string_read size 1050 path
  s ← string_read size 2074 shadow
  some (id, Request.lookup (path_of p) (path_of r) (path_of s) from_create)
request_read size (Message.exchange id source target) = do
  a ← string_read size 24 source
  b ← string_read size 1048 target
  some (id, Request.exchange a b)
request_read size (Message.filter id op path) = do
  p ← string_read size 28 path
  some (id, Request.filter op p)
