-- ===== src/Tests.antt =====
-- Tests of the definitions, and the theorems applied to concrete inputs.
mod Ingest
mod Visitor
mod Enrich
mod Referrer
mod Sites
mod Collector
mod Auth
mod Config
mod Sample
mod Rollup
mod Query
mod Migrate
mod Dashboard
mod Web
mod Program
