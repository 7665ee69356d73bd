-- ===== src/Infra/Tests.antt =====
-- Reservations at a platform that schedules no job of the task "late".
use agent_exec_engine.Prelude.{
  ℕ, String, ◌≡◌, refl, List, [], ◌∷◌, lookup, Result, ok, err, if◌then◌else◌, ◌==◌, insert,
}
use agent_exec_engine.Prelude.Int.{pos}
use agent_exec_engine.Infra.{
  JobCall, create, schedule, cancel, no_reservation, status_failed, Platform, Reservations,
  request_gpu, release_gpu, create_reservation, schedule_reservation,
}
use agent_exec_engine.Infra.Pairs.{IsMade, wanted, release_gpu-request_gpu, request_gpu-leak}

abbrev answer : JobCall → Result String (ℕ × String)
answer (create reservation) = ok (201, if reservation.task_id == "late" then "late" else "job-7")
answer (schedule id) = ok (if id == "late" then 409 else 200, "")
answer (cancel id) = ok (200, "")

abbrev platform : Platform
platform = record {
  on_call = λ calls c. answer c;
  decode_id = λ body. ok body;
  print = λ n. "1024";
}

release_gpu-request_gpu_example :
    (id : String) × IsMade platform "t" (pos 1) (pos 0) [] id
    × (schedule "job-7" ∷ wanted platform "t" (pos 1) (pos 0) ∷ []
        ≡ schedule id ∷ wanted platform "t" (pos 1) (pos 0) ∷ [])
    × ((release_gpu platform "t"
          (("t", "job-7") ∷ [])
          (schedule "job-7" ∷ wanted platform "t" (pos 1) (pos 0) ∷ [])).1
        ≡ cancel id ∷ schedule "job-7" ∷ wanted platform "t" (pos 1) (pos 0) ∷ [])
    × ((r : Reservations)
        → (release_gpu platform "t"
            (("t", "job-7") ∷ [])
            (schedule "job-7" ∷ wanted platform "t" (pos 1) (pos 0) ∷ [])).0
          ≡ ok r
        → (later : List JobCall)
        → release_gpu platform "t" r later ≡ (err (no_reservation "t"), later))
unfolding request_gpu create_reservation schedule_reservation insert
release_gpu-request_gpu_example =
    release_gpu-request_gpu platform "t" (pos 1) (pos 0) [] (("t", "job-7") ∷ []) []
      (schedule "job-7" ∷ wanted platform "t" (pos 1) (pos 0) ∷ []) refl

request_gpu-leak_example :
    (request_gpu platform "late" (pos 1) (pos 0) [] []
      ≡ (err (status_failed 409 ""), schedule "late" ∷ wanted platform "late" (pos 1) (pos 0) ∷ []))
    × (release_gpu platform "late" []
          (schedule "late" ∷ wanted platform "late" (pos 1) (pos 0) ∷ [])
        ≡ (
          err (no_reservation "late"),
          schedule "late" ∷ wanted platform "late" (pos 1) (pos 0) ∷ [],
        ))
unfolding create_reservation schedule_reservation lookup
request_gpu-leak_example =
    request_gpu-leak platform "late" (pos 1) (pos 0) [] "late" (status_failed 409 "") [] refl refl
      refl
