-- ===== src/Store/Tests.antt =====
-- Writes and reads of both stores, over a small server.
use agent_exec_engine.Prelude.{
  ℕ, String, List, [], ◌∷◌, Option, none, some, Map, lookup, insert, delete, lookup-insert,
  lookup-delete, ◌+◌, ◌≡◌, refl, if◌then◌else◌, ltb, arith,
}
use agent_exec_engine.Store.Interface.{Call, write, read, drop, answers}
use agent_exec_engine.Store.Redis.{Client, IsClient, Reply, nil, bytes, redis_store}
use agent_exec_engine.Store.Alike.{answers-redis}
use agent_exec_engine.Store.Memory.{new_memory_store, memory_store}

-- A server whose entries have the time at which they end.
abbrev Entries : Type 0
Entries = Map (String × Option ℕ)

abbrev alive : ℕ → Option (String × Option ℕ) → Option String
alive now none = none
alive now (some (text, none)) = some text
alive now (some (text, some end)) = if ltb end now then none else some text

abbrev stored : ℕ → String → Entries → Option String
stored now key s = alive now (lookup key s)

abbrev reply : Option String → Reply
reply none = nil
reply (some text) = bytes text

abbrev server : Client Entries
server = record {
  set = λ done now key text expiration s.
      (none, insert key (text, if ltb 0 expiration then some (now + expiration) else none) s);
  get = λ done now key s. (reply (stored now key s), s);
  del = λ done now key s. (none, delete key s);
  ping = λ done s. (none, s);
  close = λ s. (none, s);
}

server-IsClient : IsClient server stored
server-IsClient = record {
  sets = λ now key text expiration s. refl;
  after_set = λ now later key text expiration s other h.
      let end = if ltb 0 expiration then some (now + expiration) else none in
      ground (arith, lookup-insert key other (text, end) s);
  gets = λ now key s. ground arith;
  after_get = λ now later key s other h. refl;
  dels = λ now key s. refl;
  after_del = λ now later key s other h. ground (arith, lookup-delete key other s);
  pings = λ s. refl;
  after_ping = λ later s other. refl;
}

abbrev calls : List (ℕ × Call)
calls =
    (0, write "k" "v" 1)
    ∷ (7, write "j" "w" 0)
    ∷ (9, read "k")
    ∷ (2000000000, read "k")
    ∷ (2000000000, drop "j")
    ∷ (2000000001, read "j")
    ∷ []

answers-redis_example :
    answers (redis_store server) calls [] ≡ answers memory_store calls new_memory_store
unfolding lookup
answers-redis_example =
    answers-redis server stored server-IsClient calls 0 [] new_memory_store
      (omega arith, (omega arith, (omega arith, (omega arith, (omega arith, (omega arith, tt))))))
      (λ later key h. refl)
