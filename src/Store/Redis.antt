-- ===== src/Store/Redis.antt =====
-- internal/store/redis.go: the store over a Redis client. The client is a parameter: its commands
-- change a state of their own, the server's.
use agent_exec_engine.Prelude.{
  ℕ, ◌+◌, ◌*◌, ◌≤◌, String, ◌≡◌, Bool, false, not, ◌&&◌, Option, none, some, is_some, get_or,
  if◌then◌else◌, ◌==◌, ltb, Result, ok, err,
}
use agent_exec_engine.Prelude.Int.{ℤ, pos, is_zero, is_positive}
use agent_exec_engine.Store.Interface.{StoreError, err_not_found, failed, second, Store}

-- The answer to GET: `nil` is redis.Nil.
pub data Reply : Type 0 where
  nil : Reply
  bytes : String → Reply
  failure : String → Reply

-- The commands of the client; the first argument says that the context is done, the second is the
-- time. An expiration of 0 means that there is none. A command that is not GET returns an error or
-- none.
pub record Client (S : Type 0) : Type 0 where
  pub set : Bool → ℕ → String → String → ℕ → S → Option String × S
  pub get : Bool → ℕ → String → S → Reply × S
  pub del : Bool → ℕ → String → S → Option String × S
  pub ping : Bool → S → Option String × S
  pub close : S → Option String × S

pub record RedisOptions : Type 0 where
  pub url : String
  pub password : String
  pub db : ℤ
  pub pool_size : ℤ

-- The options of the client; its time limits are in nanoseconds.
pub record ClientOptions : Type 0 where
  pub addr : String
  pub password : String
  pub db : ℤ
  pub pool_size : ℤ
  pub min_idle_conns : ℕ
  pub dial_timeout : ℕ
  pub read_timeout : ℕ
  pub write_timeout : ℕ

-- What `url.Parse` returns: `user` is there when the URL names one, with its password or "".
pub record ParsedUrl : Type 0 where
  pub host : String
  pub user : Option String
  pub path : String

pub data OpenError : Type 0 where
  parse_redis_url : String → OpenError
  redis_ping : String → OpenError

-- What a new store takes from outside: the URL parser, `strconv.Atoi`, and the client of options.
pub record Libraries (S : Type 0) : Type 0 where
  pub parse_url : String → Result String ParsedUrl
  pub atoi : String → Option ℤ
  pub new_client : ClientOptions → S

-- The part of a URL's path after its first character.
abbrev db_path : String → String
db_path String.[] = ""
db_path (String.◌∷◌ c rest) = rest

abbrev with_password : Option String → RedisOptions → RedisOptions
with_password user opts =
    if opts.password == "" && is_some user then record opts { password = get_or "" user } else opts

module _ {S : Type 0} (lib : Libraries S) where
  abbrev with_db : String → RedisOptions → RedisOptions
  with_db path opts =
      if is_zero opts.db && not (path == "") && not (path == "/")
      then record opts { db = get_or opts.db (lib.atoi (db_path path)) }
      else opts

  -- The address, and the options with what the URL adds to them.
  unfoldable read_url : RedisOptions → Result OpenError (String × RedisOptions)
  read_url opts =
      if opts.url == "" then ok ("localhost:6379", opts) else elim (lib.parse_url opts.url) [
        | err e ↦ err (parse_redis_url e)
        | ok parsed ↦ ok (
          if parsed.host == "" then "localhost:6379" else parsed.host,
          with_db parsed.path (with_password parsed.user opts),
        )
      ]

  abbrev client_options : String → RedisOptions → ClientOptions
  client_options addr opts = record {
    addr = addr;
    password = opts.password;
    db = opts.db;
    pool_size = if is_positive opts.pool_size then opts.pool_size else pos 10;
    min_idle_conns = 2;
    dial_timeout = 5 * second;
    read_timeout = 3 * second;
    write_timeout = 3 * second;
  }

  -- The connection is tried once, and closed if that fails.
  abbrev connect : Client S → S → Result OpenError S × S
  connect client s = elim ((client.ping false s).0) [
    | none ↦ (ok (client.ping false s).1, (client.ping false s).1)
    | some e ↦ (err (redis_ping e), (client.close (client.ping false s).1).1)
  ]

  unfoldable new_redis_store : Client S → RedisOptions → Result OpenError S
  unfolding read_url
  new_redis_store client opts = elim (read_url opts) [
    | err e ↦ err e
    | ok (addr, filled) ↦ (connect client (lib.new_client (client_options addr filled))).0
  ]

abbrev of_error : Option String → Result StoreError (Unit {0})
of_error none = ok tt
of_error (some e) = err (failed e)

abbrev of_reply : String → Reply → Result StoreError String
of_reply key nil = err (err_not_found key)
of_reply key (bytes text) = ok text
of_reply key (failure e) = err (failed e)

module _ {S : Type 0} (client : Client S) where
  unfoldable pub set : Bool → ℕ → String → String → ℕ → S → Result StoreError (Unit {0}) × S
  set done now key text ttl_seconds s =
      let r =
        client.set done now key text (if ltb 0 ttl_seconds then ttl_seconds * second else 0) s in
      (of_error r.0, r.1)

  unfoldable pub get : Bool → ℕ → String → S → Result StoreError String × S
  get done now key s = let r = client.get done now key s in (of_reply key r.0, r.1)

  unfoldable pub erase : Bool → ℕ → String → S → Result StoreError (Unit {0}) × S
  erase done now key s = let r = client.del done now key s in (of_error r.0, r.1)

  unfoldable pub ping : Bool → S → Result StoreError (Unit {0}) × S
  ping done s = let r = client.ping done s in (of_error r.0, r.1)

  unfoldable pub close : S → Result StoreError (Unit {0}) × S
  close s = let r = client.close s in (of_error r.0, r.1)

  abbrev pub redis_store : Store S
  redis_store = record { set = set; get = get; erase = erase; ping = ping }

-- What Redis documents of the commands, where none of them fails: `seen` is what GET returns at a
-- time. SET replaces the value and its expiration, a key is gone when its expiration has passed,
-- DEL removes a key, and GET and PING change nothing.
pub record IsClient {S : Type 0} (client : Client S) (seen : ℕ → String → S → Option String)
    : Type 0 where
  pub sets :
      (now : ℕ) (key text : String) (expiration : ℕ) (s : S)
      → (client.set false now key text expiration s).0 ≡ none
  pub after_set :
      (now later : ℕ) (key text : String) (expiration : ℕ) (s : S) (other : String)
      → now ≤ later
      → seen later other (client.set false now key text expiration s).1 ≡ (
          if key == other
          then (if ltb 0 expiration && ltb (now + expiration) later then none else some text)
          else seen later other s)
  pub gets :
      (now : ℕ) (key : String) (s : S)
      → (client.get false now key s).0
        ≡ (elim (seen now key s) as (λ _. Reply) [ none ↦ nil | some text ↦ bytes text ])
  pub after_get :
      (now later : ℕ) (key : String) (s : S) (other : String)
      → now ≤ later
      → seen later other (client.get false now key s).1 ≡ seen later other s
  pub dels : (now : ℕ) (key : String) (s : S) → (client.del false now key s).0 ≡ none
  pub after_del :
      (now later : ℕ) (key : String) (s : S) (other : String)
      → now ≤ later
      → seen later other (client.del false now key s).1
        ≡ (if key == other then none else seen later other s)
  pub pings : (s : S) → (client.ping false s).0 ≡ none
  pub after_ping :
      (later : ℕ) (s : S) (other : String)
      → seen later other (client.ping false s).1 ≡ seen later other s
