-- ===== src/Storage/Parts/Tiles.antt =====
-- The parts of a plan lie one behind the other, and make up the whole object.
use ezdbbackup.Common.{
  sym, ap, ℕ, zero, suc, ◌+◌, ◌-◌, ◌*◌, ◌≤◌, ◌<◌, ◌≡◌, refl, List, [], ◌∷◌, ok, arith, ℤ, pos,
}
use ezdbbackup.Common.Bytes.{Bytes}
use ezdbbackup.Storage.Plan.{multipart_plan, maximum_part_size}
use ezdbbackup.Storage.Plan.Bounds.{IsPlan, multipart_plan-IsPlan}
use ezdbbackup.Storage.S3.{Call, upload_part, Job}
use ezdbbackup.Storage.Parts.{part_call, min_length}
use ezdbbackup.Storage.Parts.Trace.{planned}

-- The calls upload parts that are numbered upwards behind `index`, whose sections are not empty, at
-- most S3's maximum long, adjacent from `start`, and end at `stop`.
abbrev pub Tiles : ℕ → ℕ → ℕ → List Call → Type 0
Tiles index start stop [] = start ≡ stop
Tiles index start stop (upload_part _ _ number content_length section ∷ calls) =
    (number ≡ index + 1)
    × (section.offset ≡ start)
    × (section.length ≡ content_length)
    × (0 < content_length)
    × (content_length ≤ maximum_part_size)
    × Tiles (index + 1) (start + content_length) stop calls
Tiles index start stop (_ ∷ _) = ⊥

module _ {E : Type 0} (j : Job E) (id : Bytes) (part_size part_count : ℕ)
    (plan : IsPlan j.size part_size part_count) where
  -- where the parts from an index on begin
  Begins : ℕ → ℕ → ℕ → Type 0
  Begins index zero start = start ≡ j.size
  Begins index (suc rounds) start = start ≡ index * part_size

  -- A part that is not the last has the whole part size, and the last has what is left.
  begins_before : (rounds index : ℕ) → index + suc rounds ≡ part_count → index * part_size < j.size
  begins_before rounds index e = grind (arith, plan.no_spare)

  next-Begins :
      (rounds index : ℕ)
      → index + suc rounds ≡ part_count
      → Begins
          (index + 1)
          rounds
          (index * part_size + min_length part_size (j.size - index * part_size))
  unfolding Begins min_length
  next-Begins zero index e =
      let n : part_count ≡ index + 1 = omega arith in
      let c : j.size ≤ (index + 1) * part_size = rw n at plan.covers in
      ground (arith, begins_before zero index e)
  next-Begins (suc rounds) index e = ground (arith, begins_before rounds (index + 1) (omega arith))

  planned-Tiles_from :
      (rounds index start : ℕ)
      → index + rounds ≡ part_count
      → Begins index rounds start
      → Tiles index start j.size (planned j id part_size index rounds)
  unfolding Begins part_call
  planned-Tiles_from zero index start e b = b
  planned-Tiles_from (suc rounds) index start e b = (
    refl,
    sym b,
    refl,
    ground (arith, begins_before rounds index e, plan.at_least),
    ground (arith, plan.at_most),
    planned-Tiles_from rounds (index + 1) _ (omega arith) (rw b (next-Begins rounds index e)),
  )

  planned-Tiles_plan : (n : ℕ) → part_count ≡ n → Tiles 0 0 j.size (planned j id part_size 0 n)
  unfolding Begins
  planned-Tiles_plan zero e =
      planned-Tiles_from 0 0 0 (omega arith)
        (omega (arith, plan.covers, ap (λ (n : ℕ). n * part_size) e))
  planned-Tiles_plan (suc n) e = planned-Tiles_from (suc n) 0 0 (omega arith) (omega arith)

-- The parts that a plan requests make up the object: their sections begin at 0, are adjacent, are
-- not empty, none is longer than S3 takes, and the last ends at the object's size; they are numbered
-- from 1 upwards.
pub planned-Tiles :
    {E : Type 0} (j : Job E) (id : Bytes) (configured : ℤ) {part_size part_count : ℕ}
    → multipart_plan (pos j.size) configured ≡ ok (part_size, part_count)
    → Tiles 0 0 j.size (planned j id part_size 0 part_count)
planned-Tiles j id configured {part_size = ps} {part_count = n} e =
    planned-Tiles_plan j id ps n (multipart_plan-IsPlan j.size configured e) n refl
