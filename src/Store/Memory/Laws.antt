-- ===== src/Store/Memory/Laws.antt =====
-- What a read returns after a write.
use agent_exec_engine.Prelude.{
  ℕ, ◌+◌, ◌*◌, ◌≤◌, String, ◌≡◌, false, if◌then◌else◌, ltb, lookup-insert, lookup-delete, eq_refl,
  ok, err, arith, ◌==◌,
}
use agent_exec_engine.Store.Interface.{second, err_not_found}
use agent_exec_engine.Store.Memory.{MemoryStore, set, get}

module _ (now later : ℕ) (key value : String) (ttl_seconds : ℕ) (m : MemoryStore) where
  -- After a write with a time to live, a read of the key returns the value until that time has
  -- passed, and reports the key as missing afterwards; with none, it always returns the value.
  pub get-set_self : (get false later key (set false now key value ttl_seconds m).1).0 ≡ (
      if ltb 0 ttl_seconds
      then (if ltb (now + ttl_seconds * second) later then err (err_not_found key) else ok value)
      else ok value)
  unfolding get set
  get-set_self = ground (
    arith,
    eq_refl key,
    lookup-insert key key value m.values,
    lookup-insert key key (now + ttl_seconds * second) m.expiry_by_key,
    lookup-delete key key m.expiry_by_key,
  )

  -- A write of one key leaves what is read of another.
  get-set_other :
      (other : String)
      → (key == other) ≡ false
      → (get false later other (set false now key value ttl_seconds m).1).0
        ≡ (get false later other m).0
  unfolding get set
  get-set_other other h = ground (
    arith,
    lookup-insert key other value m.values,
    lookup-insert key other (now + ttl_seconds * second) m.expiry_by_key,
    lookup-delete key other m.expiry_by_key,
  )

  -- As long as a key lives, reading it changes nothing.
  pub get-set_store :
      later ≤ now + ttl_seconds * second
      → (get false later key (set false now key value ttl_seconds m).1).1
        ≡ (set false now key value ttl_seconds m).1
  unfolding get set
  get-set_store h = ground (
    arith,
    eq_refl key,
    lookup-insert key key (now + ttl_seconds * second) m.expiry_by_key,
    lookup-delete key key m.expiry_by_key,
  )
