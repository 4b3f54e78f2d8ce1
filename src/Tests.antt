-- ===== src/Tests.antt =====
-- Concrete instances of the interfaces, and the theorems applied to them at concrete inputs.
mod Memory
mod Tables
mod Worlds
mod Tokens
mod Errors
mod Sessions
mod Rules
mod Roles
mod SeedTables
mod SeedManagers
mod Seed
mod Validation
mod Pagination
mod Recording
mod Permissions
mod ApiKeys
mod Guards
mod Users
mod Cookies
mod Recovery
mod Onboarding
mod Outbox
mod Subnets
