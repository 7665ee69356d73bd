-- ===== src/Infra/Pairs.antt =====
-- internal/infra/scheduler_client.go: which jobs a reservation's release cancels.
use Prim.Native.String.{◌++◌ as str_append}
use agent_exec_engine.Prelude.{
  String, ◌≡◌, List, ◌∷◌, none, some, lookup, lookup-insert, lookup-delete, eq_refl, ok, err, arith,
  eqb, Bool-cases, Result-cases, inl, inr,
}
use agent_exec_engine.Prelude.Int.{ℤ}
use agent_exec_engine.Infra.{
  JobCall, create, schedule, cancel, InfraError, no_reservation, Platform, Reservations,
  create_reservation, schedule_reservation, request_gpu, release_gpu, format_gpu_memory,
}

module _ (world : Platform) (task_id : String) (gpu_count memory_min : ℤ) where
  -- The request for a job that `createReservation` makes.
  abbrev pub wanted : JobCall
  wanted = create (record {
    name = str_append "agent-exec-" task_id;
    task_id = task_id;
    gpu = gpu_count;
    gpu_memory = format_gpu_memory world memory_min;
  })

  create_reservation-calls :
      (calls : List JobCall)
      → (create_reservation world task_id gpu_count memory_min calls).1 ≡ wanted ∷ calls
  unfolding create_reservation
  create_reservation-calls calls = ground arith

  schedule_reservation-calls :
      (id : String) (calls : List JobCall)
      → (schedule_reservation world id calls).1 ≡ schedule id ∷ calls
  unfolding schedule_reservation
  schedule_reservation-calls id calls = ground arith

  release_gpu-calls :
      (id : String) (r : Reservations) (calls : List JobCall)
      → lookup task_id r ≡ some id
      → (release_gpu world task_id r calls).1 ≡ cancel id ∷ calls
  unfolding release_gpu
  release_gpu-calls id r calls h = ground (arith, h)

  release_gpu-refused :
      (r : Reservations) (calls : List JobCall)
      → lookup task_id r ≡ none
      → release_gpu world task_id r calls ≡ (err (no_reservation task_id), calls)
  unfolding release_gpu
  release_gpu-refused r calls h = ground (arith, h)

  release_gpu-gone :
      (r r' : Reservations) (calls : List JobCall)
      → (release_gpu world task_id r calls).0 ≡ ok r'
      → lookup task_id r' ≡ none
  unfolding release_gpu
  release_gpu-gone r r' calls e =
      ground (arith, e, lookup-delete task_id task_id r, eq_refl task_id)

  -- The platform answered the request for a job with this id.
  pub record IsMade (calls : List JobCall) (id : String) : Type 0 where
    pub payload : String
    pub answer : world.on_call calls wanted ≡ ok (201, payload)
    pub job : world.decode_id payload ≡ ok id

  create_reservation-IsMade :
      (calls : List JobCall) (id : String)
      → (create_reservation world task_id gpu_count memory_min calls).0 ≡ ok id
      → IsMade calls id
  unfolding create_reservation
  create_reservation-IsMade calls id e = elim (Result-cases (world.on_call calls wanted)) [
    | inl (f, bad) ↦ absurd (ground (arith, bad, e))
    | inr ((status, payload), good) ↦ elim (Bool-cases (eqb status 201)) [
      | inr other ↦ absurd (ground (arith, good, other, e))
      | inl is_created ↦ elim (Result-cases (world.decode_id payload)) [
        | inl (f, bad) ↦ absurd (ground (arith, good, is_created, bad, e))
        | inr (job, there) ↦ record {
          payload = payload;
          answer = ground (arith, good, is_created);
          job = ground (arith, good, is_created, there, e);
        }
      ]
    ]
  ]

  -- After a request that was granted, the platform made one job, which was scheduled; a release
  -- cancels the job whose id the platform gave, and no other; and if the platform accepts it, a
  -- second release is refused and calls nothing.
  pub release_gpu-request_gpu :
      (r r' : Reservations) (calls calls' : List JobCall)
      → request_gpu world task_id gpu_count memory_min r calls ≡ (ok r', calls')
      → (id : String) × IsMade calls id
        × (calls' ≡ schedule id ∷ wanted ∷ calls)
        × ((release_gpu world task_id r' calls').1 ≡ cancel id ∷ calls')
        × ((r'' : Reservations)
            → (release_gpu world task_id r' calls').0 ≡ ok r''
            → (later : List JobCall)
            → release_gpu world task_id r'' later ≡ (err (no_reservation task_id), later))
  unfolding request_gpu
  release_gpu-request_gpu r r' calls calls' e =
      elim (Result-cases (create_reservation world task_id gpu_count memory_min calls).0) [
        | inl (f, bad) ↦ absurd (ground (arith, bad, e))
        | inr (id, made) ↦
            let after = (create_reservation world task_id gpu_count memory_min calls).1 in
            elim (Result-cases (schedule_reservation world id after).0) [
              | inl (f, bad) ↦ absurd (ground (arith, made, bad, e))
              | inr (_, done) ↦
                  let held : lookup task_id r' ≡ some id =
                    ground
                      (arith, made, done, e, lookup-insert task_id task_id id r, eq_refl task_id) in
                  (
                    id,
                    create_reservation-IsMade calls id made,
                    ground (
                      arith,
                      made,
                      done,
                      e,
                      create_reservation-calls calls,
                      schedule_reservation-calls id after,
                    ),
                    release_gpu-calls id r' calls' held,
                    λ r'' h later. release_gpu-refused r'' later (release_gpu-gone r' r'' calls' h),
                  )
            ]
      ]

  -- Where a job was made but its scheduling fails, the request is refused, the job is not cancelled,
  -- and a task with no other reservation has nothing to release: no call for the job follows.
  pub request_gpu-leak :
      (r : Reservations) (id : String) (e : InfraError) (calls : List JobCall)
      → (create_reservation world task_id gpu_count memory_min calls).0 ≡ ok id
      → (schedule_reservation world id (wanted ∷ calls)).0 ≡ err e
      → lookup task_id r ≡ none
      → (request_gpu world task_id gpu_count memory_min r calls
          ≡ (err e, schedule id ∷ wanted ∷ calls))
        × (release_gpu world task_id r (schedule id ∷ wanted ∷ calls)
            ≡ (err (no_reservation task_id), schedule id ∷ wanted ∷ calls))
  unfolding request_gpu
  request_gpu-leak r id e calls made bad h = (
    ground (
      arith,
      made,
      bad,
      create_reservation-calls calls,
      schedule_reservation-calls id (wanted ∷ calls),
    ),
    release_gpu-refused r (schedule id ∷ wanted ∷ calls) h,
  )
