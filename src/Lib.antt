-- ===== src/Lib.antt =====
-- The macOS VFS redirector, a kernel extension (VFSFilter0/VFSFilter0) that hooks vnode operations
-- and redirects the files of some applications to backing files in other directories. This library
-- models its bookkeeping and its hooks, and proves what they keep.
--
-- The parts, and the code of each:
-- - DataMap: RecursionEngine.h, class DataMap, a locked list of keys and data. A method is one
--   step, for it holds the lock throughout. DataMap/Refinement has the finite map that it
--   implements.
-- - VnodeMap: VNode.h, class VNodeMap, four DataMaps from vnodes: to application data, to backing
--   vnodes, from shadow vnodes to real ones, and the hooked ones. Entries of the second and the
--   third own a reference (iocount) of the vnode that they hold; VnodeMap/References and
--   VnodeMap/Release keep that account.
-- - Recursion: RecursionEngine.h, the marks of threads that call into the kernel from a hook.
-- - Applications: ApplicationsData.h and .cpp, the table of applications and its look-ups.
-- - Paths: VFSHooks.cpp 65-285, QvrConvertToShadowCopyPath, QvrIsExtensionEqual,
--   QvrConvertToRedirectedPath and QvrConvertToShadowAndThenRedirectedPath, on byte strings.
-- - Event and Kernel: what a hook asks of the kernel. The kernel is a parameter, the record
--   `Kernel` over any state; every call is logged with what it was given and what it answered.
--   Kernel/Calls has the calls, Kernel/Accounts how references pass through a chain of them,
--   Kernel/Quiet which of them call no vnode operation, and Kernel/Marks what they do to the
--   thread's recursion mark.
-- - Hooks: VFSHooks.cpp, a file for each group of hooks: Hooks/Backing
--   (QvrGetBackingVnodeForRedirectedIO and its helpers), Hooks/Io (read, write), Hooks/Paging
--   (pagein, pageout), Hooks/Life (open, close, inactive), Hooks/Exchange, Hooks/Getattr, and
--   Hooks/Names for lookup, create and rename, which return or take several vnodes. Hooks/Reclaim
--   has what the reclaim hook does with the maps. Hooks/Session runs the thirteen hooks one after
--   the other from the start.
-- - Client: WaitingList.h, VFSFilter0UserClient.cpp and VFSFilter0.cpp. Client/Waiting is the
--   waiting list; Client/Requests the threads in `preOperationCallbackAndWaitForReply` and the
--   client in `reply`, as a step relation whose steps are single accesses to shared state,
--   interleaved in any order; Client/Registration in the same way `getClient`, `putClient`,
--   `registerUserClient` and `unregisterUserClient`; Client/Messages what is sent to the client,
--   and the layout of it.
-- - VnodeHook: VNodeHook.cpp and VersionDependent.cpp, the tables of operations and the loops of
--   QvrHookVnodeVop and QvrUnHookVnodeVop over an operations vector; the offsets of operations are
--   the kernel's and a parameter. VnodeHook/Vectors has these two functions whole, with the table
--   of hooked vectors, the counters of their entries, QvrGetOriginalVnodeOp, and the reclaim hook
--   (VFSHooks.cpp); the table is libghthash's, a parameter (`Ght`) with what it documents
--   (`GhtLaws`).
-- - WiredCopy: VmPmap.cpp, the copy of an operations vector's function through physical pages; the
--   page tables and the copy of physical bytes are the kernel's and parameters (`Pmap`,
--   `PmapLaws`). In VnodeHook a function of a vector is one address, and its copy one step.
-- - Tests: runs at concrete inputs.
--
-- How they interact: a hook reads VNodeMap and the marks, passes the call through when the thread
-- is marked or the process is the client's, and else finds the backing vnode, by the map or by a
-- lookup of the redirected path, and calls the backing vnode's operation in place of the original
-- one.
--
-- Conventions: pointers are numbers and NULL is 0; a path is the bytes before its terminating zero;
-- an error is its errno. The answer of IOMalloc is an argument or an answer of the kernel, so the
-- paths without memory are modelled. An argument block of a vnode operation is the fields that a
-- hook reads or changes. The two loops that release a map run on rounds, as many as the map has
-- entries, which is enough since each round takes one out, and the copy of WiredCopy on as many
-- rounds as bytes, each of which copies one at least. Assertions are left out, since a release
-- build has none.
--
-- Client/Requests takes the addresses of the threads' variables as a parameter (`Stacks`),
-- different for different threads (`AreSeparate`); a client that replies to ids of its own choice
-- is a step of the relation with `forging`. A client object registers once, when it starts.
--
-- The two static switches of VFSHooks.cpp are a parameter of the hooks of names (`Switches`), and
-- so are the addresses that a rename uses as cookies.
--
-- Assumptions: a hook, or a call that hooks or unhooks a vnode, runs as a whole, with no other
-- thread between its calls, and a call that comes back into a hook finds the thread marked. Where a
-- theorem needs it, it is a hypothesis that a lookup that fails returns no vnode (`FailsEmpty`),
-- that operations and opens do so too and a lookup that succeeds returns one (`ReturnsVnodes`), or
-- that memory is given (`Allocates`).
--
-- The repository's own calls below the hooks stand in the `Kernel` record too, by what they answer:
-- IsUserClient (VFSFilter0.cpp), the request and its reply (VFSFilter0UserClient.cpp), the original
-- operation of a vnode (QvrGetOriginalVnodeOp) and the size of a vnode (VersionDependent.cpp).
--
-- Not modelled: the creation and deletion of the table of hooked vectors, the waiting list's
-- destructor, the memory and port methods of the user client, the driver's start and stop, the
-- Kauth listener and the MAC policy, the structure layouts (VersionDependent.cpp), the client
-- program, and CommonHashTable, a copy of libghthash.
pub mod Base
pub mod DataMap
pub mod Event
pub mod VnodeMap
pub mod Recursion
pub mod Applications
pub mod Paths
pub mod Kernel
pub mod Hooks
pub mod Client
pub mod VnodeHook
pub mod WiredCopy
pub mod Tests
