-- ===== src/Tests.antt =====
-- Concrete runs of the model, at which the theorems apply.
mod Discoveries
mod Catalogues
mod Data
mod Requests
mod Recovery
mod Renewals
mod Reports
mod Backends
mod Rounds
mod Store
mod Starts
mod Dashboards
mod Downloads
mod Sources
mod Sandboxes
mod Runs
