-- ===== src/Examples.antt =====
-- Tests on concrete inputs, and the theorems at concrete inputs that meet their hypotheses.
mod Data
mod Lifecycle
mod Store
mod Service
mod Api
mod Saga
mod Relay
mod Consumer
mod Postgres
mod Webhook
