-- ===== src/Server/System.antt =====
-- Calls of the server that overlap (routes.rs runs the handlers concurrently on one store). Each
-- statement holds the connection's lock, so an execution is a sequence of statements, in any order.
pub mod Steps
pub mod Spending
pub mod Exclusion
pub mod Once
pub mod Recovery
pub mod LeaseSteps
pub mod IssueSteps
