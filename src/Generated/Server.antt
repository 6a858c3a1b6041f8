-- ===== src/Generated/Server.antt =====
-- The state that a request to the open endpoints acts on: the three parts of the storage that the
-- components model apart. A step on one part is a step on the whole.
use singboxconfig.Prelude.Exec.{Result, ok, err, Exec}
use singboxconfig.Auth.World as Settings
use singboxconfig.Auth.World.{AuthError, World}
use singboxconfig.Cache.Store as CacheStore
use singboxconfig.Cache.Store.{CacheError}
use singboxconfig.Inventory.Store as TableStore
use singboxconfig.Inventory.Store.{StorageError}

pub record ServerState : Type 0 where
  pub world : World
  pub cache : CacheStore.Db
  pub db : TableStore.Db

-- What a handler asks of an error: whether it is `storage.ErrNotFound`.
pub data GenerateError : Type 0 where
  row_missing failed : GenerateError

abbrev pub Action : Type 0 → Type 0
Action A = Exec ServerState GenerateError A

unfoldable pub world_error : {A : Type 0} → Result AuthError A → Result GenerateError A
world_error (ok a) = ok a
world_error (err AuthError.not_found) = err row_missing
world_error (err e) = err failed

unfoldable pub cache_error : {A : Type 0} → Result CacheError A → Result GenerateError A
cache_error (ok a) = ok a
cache_error (err CacheError.not_found) = err row_missing
cache_error (err e) = err failed

unfoldable pub db_error : {A : Type 0} → Result StorageError A → Result GenerateError A
db_error (ok a) = ok a
db_error (err StorageError.not_found) = err row_missing
db_error (err e) = err failed

abbrev pub on_world : {A : Type 0} → Settings.M A → Action A
on_world m s = let (r, w) = m s.world in (world_error r, record s { world = w })

abbrev pub on_cache : {A : Type 0} → CacheStore.M A → Action A
on_cache m s = let (r, d) = m s.cache in (cache_error r, record s { cache = d })

abbrev pub on_db : {A : Type 0} → TableStore.M A → Action A
on_db m s = let (r, d) = m s.db in (db_error r, record s { db = d })
