-- ===== src/Postgres.antt =====
-- packages/go/backend/postgres: a client of the PostgreSQL wire protocol, and the session store on
-- it.
pub mod Failure
pub mod Param
pub mod Query
pub mod Row
pub mod Client
pub mod Scan
pub mod Connect
pub mod Store
