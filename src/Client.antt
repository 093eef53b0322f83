-- ===== src/Client.antt =====
-- The protocol between the hooks and the client: the waiting list, the pre-operation requests, the
-- messages they become, and the registration of the client.
pub mod Waiting
pub mod Messages
pub mod Requests
pub mod Registration
