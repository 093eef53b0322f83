-- ===== src/Client/Requests.antt =====
-- VFSFilter0/VFSFilter0/VFSFilter0UserClient.cpp, `preOperationCallbackAndWaitForReply` and `reply`:
-- any number of threads in the first and the client in the second, interleaved. A step is one access
-- to shared state: a call of a DataMap or of the waiting list, an enqueue, or a store to a callback.
pub mod Threads
pub mod Steps
pub mod Lists
pub mod Reached
pub mod Honest
pub mod Kinds
pub mod Safety
pub mod Service
