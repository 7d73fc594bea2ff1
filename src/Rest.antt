-- ===== src/Rest.antt =====
-- pkg/rest/utils.go: the parameters of requests.
pub mod Query
pub mod Errors
pub mod Responses
pub mod Requests
pub mod Sender
mod Tests
