-- ===== src/Rest.antt =====
-- rest/middleware: the error handler and the authentication of requests.
pub mod ErrorHandler
pub mod Visits
pub mod Responses
pub mod Authn
pub mod Middlewares
pub mod RouterGroup
pub mod Recovery
pub mod Tests
