-- ===== src/Store/Interface.antt =====
-- internal/store/interface.go: what a store promises its callers, and calls of it one after the
-- other.
use agent_exec_engine.Prelude.{
  ℕ, ◌+◌, ◌*◌, ◌≤◌, refl, arith, String, ◌≡◌, Bool, false, List, [], ◌∷◌, Option, none, some,
  if◌then◌else◌, ◌==◌, ltb, Result, ok, err,
}
use mathlib.Core.Path.{ap₂}

-- `failed` is an error of the client, by its text.
pub data StoreError : Type 0 where
  context_done : StoreError
  err_not_found : String → StoreError
  failed : String → StoreError

abbrev pub second : ℕ
second = 1000000000

-- A read that finds nothing is an error that names the key.
abbrev pub found : String → Option String → Result StoreError String
found key none = err (err_not_found key)
found key (some text) = ok text

-- A store with its state. The first argument says that the context is done, the second is the time.
pub record Store (S : Type 0) : Type 0 where
  pub set : Bool → ℕ → String → String → ℕ → S → Result StoreError (Unit {0}) × S
  pub get : Bool → ℕ → String → S → Result StoreError String × S
  pub erase : Bool → ℕ → String → S → Result StoreError (Unit {0}) × S
  pub ping : Bool → S → Result StoreError (Unit {0}) × S

pub data Call : Type 0 where
  write : String → String → ℕ → Call
  read : String → Call
  drop : String → Call
  check : Call

pub data Answer : Type 0 where
  done : Answer
  value : String → Answer
  refused : StoreError → Answer

abbrev of_unit : Result StoreError (Unit {0}) → Answer
of_unit (ok _) = done
of_unit (err e) = refused e

abbrev of_text : Result StoreError String → Answer
of_text (ok text) = value text
of_text (err e) = refused e

module _ {S : Type 0} (store : Store S) where
  -- One call with a context that is not done.
  unfoldable perform : ℕ → Call → S → Answer × S
  perform now (write key text ttl) s =
      (of_unit (store.set false now key text ttl s).0, (store.set false now key text ttl s).1)
  perform now (read key) s = (of_text (store.get false now key s).0, (store.get false now key s).1)
  perform now (drop key) s =
      (of_unit (store.erase false now key s).0, (store.erase false now key s).1)
  perform now check s = (of_unit (store.ping false s).0, (store.ping false s).1)

  unfoldable pub answers : List (ℕ × Call) → S → List Answer
  unfolding perform
  answers [] s = []
  answers ((now, call) ∷ rest) s = (perform now call s).0 ∷ answers rest (perform now call s).1

-- The times of the calls do not go back.
abbrev pub Follow : ℕ → List (ℕ × Call) → Type 0
Follow now [] = Unit
Follow now ((time, call) ∷ rest) = (now ≤ time) × Follow time rest

-- What a store that is described by `seen`, the value that a read of a key gives at a time, does.
pub record IsStore {S : Type 0} (store : Store S) (seen : ℕ → String → S → Option String)
    : Type 0 where
  pub sets :
      (now : ℕ) (key text : String) (ttl : ℕ) (s : S)
      → (store.set false now key text ttl s).0 ≡ ok tt
  pub after_set :
      (now later : ℕ) (key text : String) (ttl : ℕ) (s : S) (other : String)
      → now ≤ later
      → seen later other (store.set false now key text ttl s).1 ≡ (
          if key == other
          then (if ltb 0 ttl
              then (if ltb (now + ttl * second) later then none else some text)
              else some text)
          else seen later other s)
  pub gets :
      (now : ℕ) (key : String) (s : S) → (store.get false now key s).0 ≡ found key (seen now key s)
  pub after_get :
      (now later : ℕ) (key : String) (s : S) (other : String)
      → now ≤ later
      → seen later other (store.get false now key s).1 ≡ seen later other s
  pub erases : (now : ℕ) (key : String) (s : S) → (store.erase false now key s).0 ≡ ok tt
  pub after_erase :
      (now later : ℕ) (key : String) (s : S) (other : String)
      → now ≤ later
      → seen later other (store.erase false now key s).1
        ≡ (if key == other then none else seen later other s)
  pub pings : (s : S) → (store.ping false s).0 ≡ ok tt
  pub after_ping :
      (later : ℕ) (s : S) (other : String)
      → seen later other (store.ping false s).1 ≡ seen later other s

-- The states of two stores from which the same is read, now and later.
pub record Agree {S T : Type 0} (seen : ℕ → String → S → Option String)
    (seen' : ℕ → String → T → Option String) (now : ℕ) (s : S) (t : T) : Type 0 where
  pub same : (later : ℕ) (key : String) → now ≤ later → seen later key s ≡ seen' later key t

module _ {S T : Type 0} {store : Store S} {seen : ℕ → String → S → Option String} {store' : Store T}
    {seen' : ℕ → String → T → Option String} (one : IsStore store seen)
    (two : IsStore store' seen') where
  perform-Agree :
      (now : ℕ) (call : Call) (s : S) (t : T)
      → Agree seen seen' now s t
      → ((perform store now call s).0 ≡ (perform store' now call t).0)
        × Agree seen seen' now (perform store now call s).1 (perform store' now call t).1
  unfolding perform
  perform-Agree now (write key text ttl) s t a = (
    ground (arith, one.sets now key text ttl s, two.sets now key text ttl t),
    record {
      same = λ later other h. ground (
        arith,
        one.after_set now later key text ttl s other h,
        two.after_set now later key text ttl t other h,
        a.same later other h,
      );
    },
  )
  perform-Agree now (read key) s t a = (
    ground (arith, one.gets now key s, two.gets now key t, a.same now key (omega arith)),
    record {
      same = λ later other h. ground (
        arith,
        one.after_get now later key s other h,
        two.after_get now later key t other h,
        a.same later other h,
      );
    },
  )
  perform-Agree now (drop key) s t a = (
    ground (arith, one.erases now key s, two.erases now key t),
    record {
      same = λ later other h. ground (
        arith,
        one.after_erase now later key s other h,
        two.after_erase now later key t other h,
        a.same later other h,
      );
    },
  )
  perform-Agree now check s t a = (
    ground (arith, one.pings s, two.pings t),
    record {
      same = λ later other h.
          ground (
            arith,
            one.after_ping later s other,
            two.after_ping later t other,
            a.same later other h,
          );
    },
  )

  -- Two stores from which the same is read answer every sequence of calls alike.
  pub answers-Agree :
      (calls : List (ℕ × Call)) (now : ℕ) (s : S) (t : T)
      → Follow now calls
      → Agree seen seen' now s t
      → answers store calls s ≡ answers store' calls t
  unfolding answers
  answers-Agree [] now s t f a = refl
  answers-Agree ((time, call) ∷ rest) now s t f a =
      let later : Agree seen seen' time s t = record {
        same = λ l key h. a.same l key (omega (arith, h, f.0));
      } in
      let (same, next) = perform-Agree time call s t later in
      ap₂ ◌∷◌ same (answers-Agree rest time _ _ f.1 next)
