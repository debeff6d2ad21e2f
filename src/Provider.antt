-- ===== src/Provider.antt =====
-- internal/provider: the evidence provider on Alibaba Cloud, and the client that it calls.
pub mod Requests
pub mod Client
pub mod Sdk
pub mod Summary
pub mod Resolve
pub mod Queries
pub mod LogRequests
pub mod Asks
pub mod Served
pub mod Numbers
