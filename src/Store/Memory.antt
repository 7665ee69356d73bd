-- ===== src/Store/Memory.antt =====
-- internal/store/memory.go: the store in memory, with an expiry for each key. Values are byte
-- texts; times are nanoseconds, and the context's error comes in as an argument.
pub mod Laws
use agent_exec_engine.Prelude.{
  ℕ, ◌+◌, ◌*◌, String, Bool, Option, none, some, [], if◌then◌else◌, ltb, Map, lookup, insert,
  delete, Result, ok, err,
}
use agent_exec_engine.Store.Interface.{
  StoreError, context_done, err_not_found, second, found, Store,
}

pub record MemoryStore : Type 0 where
  pub values : Map String
  pub ttl_by_key : Map ℕ
  pub expiry_by_key : Map ℕ

abbrev pub new_memory_store : MemoryStore
new_memory_store = record { values = []; ttl_by_key = []; expiry_by_key = [] }

-- `done` says that the context is done. A time to live of 0 means that there is no expiry.
unfoldable pub set :
    Bool → ℕ → String → String → ℕ → MemoryStore → Result StoreError (Unit {0}) × MemoryStore
set done now key value ttl_seconds m = if done then (err context_done, m) else (
  ok tt,
  if ltb 0 ttl_seconds
      then record {
        values = insert key value m.values;
        ttl_by_key = insert key ttl_seconds m.ttl_by_key;
        expiry_by_key = insert key (now + ttl_seconds * second) m.expiry_by_key;
      }
      else record {
        values = insert key value m.values;
        ttl_by_key = delete key m.ttl_by_key;
        expiry_by_key = delete key m.expiry_by_key;
      },
)

unfoldable pub remove : String → MemoryStore → MemoryStore
remove key m = record {
  values = delete key m.values;
  ttl_by_key = delete key m.ttl_by_key;
  expiry_by_key = delete key m.expiry_by_key;
}

-- time.Now().After(expiry)
abbrev pub is_expired : ℕ → Option ℕ → Bool
is_expired now none = Bool.false
is_expired now (some expiry) = ltb expiry now

unfoldable pub get : Bool → ℕ → String → MemoryStore → Result StoreError String × MemoryStore
unfolding remove
get done now key m =
    if done
    then (err context_done, m)
    else if is_expired now (lookup key m.expiry_by_key)
    then (err (err_not_found key), remove key m)
    else (found key (lookup key m.values), m)

unfoldable pub erase : Bool → ℕ → String → MemoryStore → Result StoreError (Unit {0}) × MemoryStore
unfolding remove
erase done now key m = if done then (err context_done, m) else (ok tt, remove key m)

unfoldable pub ttl : String → MemoryStore → Option ℕ
ttl key m = lookup key m.ttl_by_key

unfoldable pub ping : Bool → MemoryStore → Result StoreError (Unit {0}) × MemoryStore
ping done m = if done then (err context_done, m) else (ok tt, m)

unfoldable pub close : MemoryStore → Result StoreError (Unit {0}) × MemoryStore
close m = (ok tt, m)

abbrev pub memory_store : Store MemoryStore
memory_store = record { set = set; get = get; erase = erase; ping = ping }
