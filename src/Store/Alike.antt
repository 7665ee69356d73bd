-- ===== src/Store/Alike.antt =====
-- internal/store: the store in memory and the store over Redis, behind the interface.
use agent_exec_engine.Prelude.{
  ℕ, ◌+◌, ◌*◌, ◌≤◌, String, ◌≡◌, refl, List, Option, none, if◌then◌else◌, ltb, lookup,
  lookup-insert, lookup-delete, arith, eq_iff,
}
use agent_exec_engine.Store.Interface.{second, Call, answers, Follow, IsStore, answers-Agree}
use agent_exec_engine.Store.Memory
use agent_exec_engine.Store.Memory.{MemoryStore, new_memory_store, memory_store, is_expired, remove}
use agent_exec_engine.Store.Redis
use agent_exec_engine.Store.Redis.{Client, IsClient, redis_store, Reply, nil, bytes}

-- What a read of the store in memory finds at a time.
abbrev pub held : ℕ → String → MemoryStore → Option String
held now key m = if is_expired now (lookup key m.expiry_by_key) then none else lookup key m.values

memory_store-IsStore : IsStore memory_store held
unfolding Memory.set Memory.get Memory.erase Memory.ping remove
memory_store-IsStore = record {
  sets = λ now key text ttl m. refl;
  after_set = λ now later key text ttl m other h. ground (
    arith,
    lookup-insert key other text m.values,
    lookup-insert key other (now + ttl * second) m.expiry_by_key,
    lookup-delete key other m.expiry_by_key,
  );
  gets = λ now key m. ground arith;
  after_get = λ now later key m other h. ground (
    arith,
    h,
    lookup-delete key other m.values,
    lookup-delete key other m.expiry_by_key,
    eq_iff key other,
  );
  erases = λ now key m. refl;
  after_erase = λ now later key m other h.
      ground (arith, lookup-delete key other m.values, lookup-delete key other m.expiry_by_key);
  pings = λ m. refl;
  after_ping = λ later m other. refl;
}

redis_store-IsStore :
    {S : Type 0} (client : Client S) (seen : ℕ → String → S → Option String)
    → IsClient client seen
    → IsStore (redis_store client) seen
unfolding Redis.set Redis.get Redis.erase Redis.ping
redis_store-IsStore client seen w = record {
  sets = λ now key text ttl s.
      ground (arith, w.sets now key text (if ltb 0 ttl then ttl * second else 0) s);
  after_set = λ now later key text ttl s other h.
      ground
        (arith, w.after_set now later key text (if ltb 0 ttl then ttl * second else 0) s other h);
  gets = λ now key s. ground (arith, w.gets now key s);
  after_get = λ now later key s other h. w.after_get now later key s other h;
  erases = λ now key s. ground (arith, w.dels now key s);
  after_erase = λ now later key s other h. w.after_del now later key s other h;
  pings = λ s. ground (arith, w.pings s);
  after_ping = λ later s other. w.after_ping later s other;
}

-- Where the client behaves as Redis documents it and its commands do not fail, the store over Redis
-- and the store in memory give the same answers to every sequence of writes, reads, removals and
-- checks at times that do not go back, if the same was read from both at first.
pub answers-redis :
    {S : Type 0} (client : Client S) (seen : ℕ → String → S → Option String)
    → IsClient client seen
    → (calls : List (ℕ × Call)) (now : ℕ) (s : S) (m : MemoryStore) → Follow now calls
    → ((later : ℕ) (key : String) → now ≤ later → seen later key s ≡ held later key m)
    → answers (redis_store client) calls s ≡ answers memory_store calls m
answers-redis client seen w calls now s m f same =
    answers-Agree (redis_store-IsStore client seen w) memory_store-IsStore calls now s m f
      (record { same = same })
