-- ===== src/Client/Registration.antt =====
-- VFSFilter0/VFSFilter0/VFSFilter0.cpp, class com_VFSFilter0: `getClient` and `putClient` by any
-- number of threads, `registerUserClient` and `unregisterUserClient` by the client's, interleaved. A
-- step is one access to `userClient`, `pendingUnregistration` or `clientInvocations`; what only
-- shortens a sleep (`wakeup`) is left out, since `msleep` ends by itself after a second. The counter
-- is far from wrapping around: it is at most the number of threads.
pub mod Threads
pub mod Steps
pub mod Safety
