-- ===== src/Storage.antt =====
-- core/storage/service_db.py: the tables of the service database that authentication reads and
-- writes, with core/auth/api_key_repository.py and core/auth/user_repository.py, which pass the calls on.
pub mod Keys
pub mod Users
pub mod Transaction
