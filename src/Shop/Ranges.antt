-- ===== src/Shop/Ranges.antt =====
-- The ranges that the loops of Shop.Dispatch make follow one another.
use sweater.Prelude.{
  ℕ, zero, suc, ◌+◌, ◌-◌, ◌*◌, ◌/◌, ◌%◌, ◌^◌, ◌≤◌, ◌<◌, ◌≡◌, refl, List, [], ◌∷◌, ◌++◌, ap, length,
  true, max, ◌==◌, ◌≢◌, arith,
}
use native.Mathlib.Nat.{div-add-mod, mod-lt}
use sweater.Chunks.Tiles.{Range, Tiles, Tiles-append}
use sweater.Shop.Config.{Config, Shop, Surroundings}
use sweater.Shop.Effects.{Effect, executed, enqueue}
use sweater.Shop.Dispatch.{
  slices, announce, Parts, part_length, part_end, slice_division, part_slices, dispatch_parts,
  bulk_parts,
}

-- From one range to the next, and how many they are at most.
abbrev pub IsCut : ℕ → ℕ → ℕ → List Range → Type 0
IsCut start stop most rs = Tiles start stop rs × (length rs ≤ most)

-- `k` slices of the same length reach the end, and the loop ends there.
slices-IsCut :
    (fuel k iter stop slice_iter : ℕ)
    → iter + k * slice_iter ≡ stop
    → k ≤ fuel
    → 0 < slice_iter
    → stop < 2 ^ 32
    → IsCut iter stop k (slices fuel iter stop 0 slice_iter)
unfolding slices
slices-IsCut zero zero iter stop s e l h f = (omega (arith, e), omega arith)
slices-IsCut zero (suc k) iter stop s e l h f = absurd (omega arith)
slices-IsCut (suc fuel) zero iter stop s e l h f = ground arith
slices-IsCut (suc fuel) (suc k) iter stop s e l h f =
    ground (arith, slices-IsCut fuel k (iter + s) stop s (omega arith) (omega arith) h f)

pub div-pos : (n d : ℕ) → 0 < d → d ≤ n → 0 < n / d
div-pos n d h k = grind (arith, div-add-mod n d, mod-lt n h)

-- With the rest of the division given to the first slice.
slices_with_extra-IsCut :
    (fuel d start len extra slice_iter : ℕ)
    → suc d * slice_iter + extra ≡ len
    → suc d ≤ fuel
    → 0 < slice_iter
    → start + len < 2 ^ 32
    → IsCut start (start + len) (suc d) (slices fuel start (start + len) extra slice_iter)
unfolding slices
slices_with_extra-IsCut zero d start len extra s e l h f = absurd (omega arith)
slices_with_extra-IsCut (suc fuel) d start len extra s e l h f =
    ground (
      arith,
      slices-IsCut fuel d (start + extra + s) (start + len) s (omega arith) (omega arith) h f,
    )

pub part_slices-IsCut :
    (p : Parts) (slice_div work_part start : ℕ)
    → 0 < slice_div
    → slice_div ≤ part_length p work_part
    → start + part_length p work_part < 2 ^ 32
    → IsCut start
        (start + part_length p work_part)
        slice_div
        (part_slices p slice_div work_part start)
unfolding part_slices
part_slices-IsCut p zero work_part start h k f = absurd (omega arith)
part_slices-IsCut p (suc d) work_part start h k f =
    let len = part_length p work_part in
    let whole : part_end p work_part start ≡ start + len = omega arith in
    rw whole (
      slices_with_extra-IsCut len d start len (len % suc d) (len / suc d) (div-add-mod len (suc d))
        k (div-pos len (suc d) h k) f)

pub slice_division_bounds :
    (shop : Shop) (per_part : ℕ)
    → 0 < shop.spread_work_stealing_division
    → shop.spread_work_stealing_division ≤ 16
    → (0 < slice_division shop per_part)
      × (slice_division shop per_part ≤ max per_part 1)
      × (slice_division shop per_part ≤ 16)
unfolding slice_division
slice_division_bounds shop per_part h k = omega arith

pub executed-announce :
    (rs : List Range) (es : List Effect) → executed (announce rs ++ es) ≡ executed es
unfolding announce
executed-announce [] es = refl
executed-announce (r ∷ rs) es = executed-announce rs es

-- What is left from part `work_part` on, with `left` parts to go.
pub record Left (p : Parts) (left work_part iteration : ℕ) : Type 0 where
  pub rest :
      iteration + left * p.iterations_per_part + (p.parts_with_extra_iteration - work_part)
      ≡ p.iterations
  pub few : p.parts_with_extra_iteration ≤ work_part + left
  pub fits : p.iterations < 2 ^ 32

pub Left-next :
    (p : Parts) (left work_part iteration : ℕ)
    → Left p (suc left) work_part iteration
    → (part_end p work_part iteration ≡ iteration + part_length p work_part)
      × Left p left (work_part + 1) (part_end p work_part iteration)
Left-next p left work_part iteration l =
    (ground arith, record { rest = ground arith; few = ground arith; fits = l.fits })

pub length-bulk_parts :
    (p : Parts) (n work_part iteration : ℕ) → length (bulk_parts p n work_part iteration) ≡ n
unfolding bulk_parts
length-bulk_parts p zero work_part iteration = refl
length-bulk_parts p (suc n) work_part iteration =
    ap suc (length-bulk_parts p n (work_part + 1) (part_end p work_part iteration))

-- Every part of the loop is cut.
pub next-IsCut :
    (p : Parts) (d left work_part iteration : ℕ)
    → Left p (suc left) work_part iteration
    → 0 < d
    → d ≤ p.iterations_per_part
    → IsCut iteration (part_end p work_part iteration) d (part_slices p d work_part iteration)
next-IsCut p d left work_part iteration l h k =
    let (e, next) = Left-next p left work_part iteration l in
    let len = part_length p work_part in
    let room : iteration + len < 2 ^ 32 = omega (arith, e, next.rest, next.fits) in
    rw e (part_slices-IsCut p d work_part iteration h (omega arith) room)

pub bulk_parts-Tiles :
    (p : Parts) (left work_part iteration : ℕ)
    → Left p left work_part iteration
    → 0 < p.iterations_per_part
    → Tiles iteration p.iterations (bulk_parts p left work_part iteration)
unfolding bulk_parts
bulk_parts-Tiles p zero work_part iteration l h = omega arith
bulk_parts-Tiles p (suc left) work_part iteration l h =
    let (e, next) = Left-next p left work_part iteration l in
    (
      refl,
      omega (arith, e),
      bulk_parts-Tiles p left (work_part + 1) (part_end p work_part iteration) next h,
    )

-- One round of the loop.
pub dispatch_parts_more :
    (cfg : Config) (env : Surroundings) (p : Parts) (d left work_part worker iteration : ℕ)
    → iteration ≢ p.iterations
    → let rs = part_slices p d work_part iteration in
      (dispatch_parts cfg env p d (suc left) work_part worker iteration).effects
      ≡ announce rs
        ++ enqueue worker rs (work_part == 0) (env.worker_enqueued worker)
          ∷ (dispatch_parts cfg env p d left
              (work_part + 1)
              ((worker + 1) % cfg.hc_values)
              (part_end p work_part iteration)).effects
unfolding dispatch_parts
dispatch_parts_more cfg env p d left work_part worker iteration h = ground arith

pub dispatch_parts-Tiles :
    (cfg : Config) (env : Surroundings) (p : Parts) (d left work_part worker iteration : ℕ)
    → ((w : ℕ) → env.worker_enqueued w ≡ true)
    → Left p left work_part iteration
    → 0 < d
    → d ≤ p.iterations_per_part
    → Tiles iteration p.iterations
        (executed (dispatch_parts cfg env p d left work_part worker iteration).effects)
dispatch_parts-Tiles cfg env p d zero work_part worker iteration taken l h k =
    unfold dispatch_parts in omega arith
dispatch_parts-Tiles cfg env p d (suc left) work_part worker iteration taken l h k =
    let (e, next) = Left-next p left work_part iteration l in
    let rs = part_slices p d work_part iteration in
    rw
      (
        dispatch_parts_more cfg env p d left work_part worker iteration (omega arith),
        taken worker,
        executed-announce rs,
      )
      (Tiles-append iteration (part_end p work_part iteration) p.iterations rs _
        (next-IsCut p d left work_part iteration l h k).0
        (dispatch_parts-Tiles cfg env p d left (work_part + 1) ((worker + 1) % cfg.hc_values)
          (part_end p work_part iteration) taken next h k))
