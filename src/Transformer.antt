-- ===== src/Transformer.antt =====
-- src/transformer: raw audit events become structured ones (CloudEvents) and are sent through the
-- handlers of the services (Handlers, Router). Crn has the names of resources.
pub mod Crn
pub mod CloudEvents
pub mod Handlers
pub mod Router
mod Tests
