-- ===== src/Sandbox/Images.antt =====
-- internal/sandbox/images.go: the images that are pulled at the start. The engine is a parameter.
use agent_exec_engine.Prelude.{
  ℕ, suc, ◌≡◌, String, List, [], ◌∷◌, Option, none, some, ok, err, arith,
}
use agent_exec_engine.Prelude.Logged.{Logged, ◌>>◌, return}

abbrev default_images : List String
default_images = "python:3.12-slim" ∷ "alpine:3.19" ∷ "node:20-slim" ∷ []

-- A stream that was opened by a pull, and one that was closed.
pub data ImageCall : Type 0 where
  pulled closed : String → ImageCall

pub data ImageError : Type 0 where
  pull_failed drain_failed close_failed : String → String → ImageError

-- Why an image cannot be pulled, its stream not be read to the end, or not be closed.
pub record ImageEngine : Type 0 where
  pub on_pull : List ImageCall → String → Option String
  pub on_drain : List ImageCall → String → Option String
  pub on_close : List ImageCall → String → Option String

abbrev pub Run : Type 0
Run = Logged ImageCall ImageError (Unit {0})

module _ (engine : ImageEngine) where
  abbrev pull_image : String → Run
  pull_image image calls = elim (engine.on_pull calls image) [
    | none ↦ (ok tt, pulled image ∷ calls)
    | some e ↦ (err (pull_failed image e), calls)
  ]

  -- The error of the close after a failed read is dropped.
  abbrev drain_image : String → Run
  drain_image image calls = elim (engine.on_drain calls image) [
    | none ↦ (ok tt, calls)
    | some e ↦ (err (drain_failed image e), closed image ∷ calls)
  ]

  abbrev close_image : String → Run
  close_image image calls = elim (engine.on_close calls image) [
    | none ↦ (ok tt, closed image ∷ calls)
    | some e ↦ (err (close_failed image e), closed image ∷ calls)
  ]

  -- The loop of `PrePullImages`.
  unfoldable pull_images : List String → Run
  pull_images [] = return tt
  pull_images (image ∷ images) =
      let rest = pull_images images in
      do pull_image image; drain_image image; close_image image; rest

  unfoldable pre_pull_images : List String → Run
  unfolding pull_images
  pre_pull_images [] = pull_images default_images
  pre_pull_images (image ∷ images) = pull_images (image ∷ images)

  -- How many streams are open after the calls.
  unfoldable count_pulled : List ImageCall → ℕ
  count_pulled [] = 0
  count_pulled (pulled image ∷ calls) = suc (count_pulled calls)
  count_pulled (closed image ∷ calls) = count_pulled calls

  unfoldable count_closed : List ImageCall → ℕ
  count_closed [] = 0
  count_closed (pulled image ∷ calls) = count_closed calls
  count_closed (closed image ∷ calls) = suc (count_closed calls)

  -- On every path, errors included, each stream that a pull opened is closed once.
  pull_images-closed :
      (images : List String) (calls : List ImageCall)
      → count_pulled calls ≡ count_closed calls
      → count_pulled (pull_images images calls).1 ≡ count_closed (pull_images images calls).1
  unfolding pull_images count_pulled count_closed
  pull_images-closed [] calls h = h
  pull_images-closed (image ∷ images) calls h =
      let opened = pulled image ∷ calls in
      ground (arith, h, pull_images-closed images (closed image ∷ opened))
