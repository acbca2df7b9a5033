-- ===== src/Request/Tests.antt =====
-- A bio of twenty sectors, and a run in which the first of two pieces fails.
use lbz.Prelude.{ℕ, ◌+◌, ◌-◌, ◌≡◌, refl, true, false, ◌&&◌, ◌==◌, if◌then◌else◌, arith}
use lbz.Prelude.Words.{inc32}
use lbz.Request.{Bio, split_bio}
use lbz.Request.Pieces.{Splits, Tiles, split_bio-Tiles}
use lbz.Request.LongBio.{
  LongContext, user_bio_endio, long_bio_endio, landed, flying, Run, cut, submit_last,
  complete_piece, complete_last, Reach, begin, next, start,
}
use lbz.Request.Completion.{is_landed, long_bio_ends_once}

abbrev kernel_split : Bio → ℕ → Bio × Bio
kernel_split b n =
    (record b { sectors = n }, record b { sector = b.sector + n; sectors = b.sectors - n })

kernel_split-Splits : Splits kernel_split
kernel_split-Splits = record {
  front_sector = λ b n h. refl;
  front_sectors = λ b n h. refl;
  rest_sector = λ b n h. refl;
  rest_sectors = λ b n h. refl;
}

abbrev twenty : Bio
twenty = record { sector = 64; sectors = 20; is_flush = false; is_write = true; has_data = true }

split_bio-Tiles_example : Tiles 64 20 (split_bio kernel_split twenty)
split_bio-Tiles_example = split_bio-Tiles kernel_split kernel_split-Splits twenty (omega arith) refl

abbrev one_cut : LongContext
one_cut = record { remaining = 2; user_status = 0; ended = 0 }

abbrev over : Run
over = record {
  ctx = user_bio_endio 0 (long_bio_endio 10 one_cut);
  uncut = 0;
  in_flight = 0;
  last = landed;
  failures = 1;
}

over_reached : Reach 1 over
unfolding inc32
over_reached =
    next _ over
      (next _ _
        (next _ _
          (next (start 1) _ begin
            (cut (record { remaining = 1; user_status = 0; ended = 0 }) 0 0 0))
          (submit_last one_cut 1 0))
        (complete_piece one_cut 0 0 0 10 flying))
      (complete_last (long_bio_endio 10 one_cut) 0 0 1 0)

long_bio_ends_once_example :
    (over.ctx.ended
      ≡ (if over.uncut == 0 && (over.in_flight == 0 && is_landed over.last) then 1 else 0))
    × ((over.ctx.user_status == 0) ≡ (over.failures == 0))
long_bio_ends_once_example = long_bio_ends_once 1 (omega arith) over_reached
