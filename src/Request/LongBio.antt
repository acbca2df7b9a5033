-- ===== src/Request/LongBio.antt =====
-- `struct lbz_long_context` and `lbz_long_bio_endio`: the completions of a long bio's pieces, in any
-- order, some of them while the rest is still being cut.
use lbz.Prelude.{ℕ, suc, ◌+◌, ◌==◌, not, ◌&&◌, if◌then◌else◌}
use lbz.Prelude.Words.{inc32, dec32}

-- `user_status` is the `bi_status` of the user's bio, 0 for no error; `ended` counts `bio_endio` on it.
pub record LongContext : Type 0 where
  pub remaining : ℕ
  pub user_status : ℕ
  pub ended : ℕ

-- `if (atomic_dec_and_test(&ctx->remaining))`
unfoldable pub drop_piece : LongContext → LongContext
drop_piece c =
    let left = dec32 c.remaining in
    if left == 0
    then record c { remaining = left; ended = c.ended + 1 }
    else record c { remaining = left }

-- `lbz_long_bio_endio` on a piece that ended with `status`.
unfoldable pub long_bio_endio : ℕ → LongContext → LongContext
long_bio_endio status c =
    drop_piece
      (if not (status == 0) && c.user_status == 0 then record c { user_status = status } else c)

-- The user's own bio is the last piece; the layer below has stored an error in it, if there was one.
unfoldable pub user_bio_endio : ℕ → LongContext → LongContext
user_bio_endio status c =
    drop_piece (if not (status == 0) then record c { user_status = status } else c)

pub data LastPiece : Type 0 where
  held flying landed : LastPiece

-- A long bio under way: the pieces to cut off, those in flight, where the user's bio is, and how many
-- pieces failed.
pub record Run : Type 0 where
  pub ctx : LongContext
  pub uncut : ℕ
  pub in_flight : ℕ
  pub last : LastPiece
  pub failures : ℕ

abbrev pub failure : ℕ → ℕ
failure status = if status == 0 then 0 else 1

-- The run of a bio with `n` pieces before the last.
abbrev pub start : ℕ → Run
start n = record {
  ctx = record { remaining = 1; user_status = 0; ended = 0 };
  uncut = n;
  in_flight = 0;
  last = held;
  failures = 0;
}

pub data Step : Run → Run → Type 0 where
  cut :
      (c : LongContext) (n f e : ℕ)
      → Step
          (record { ctx = c; uncut = suc n; in_flight = f; last = held; failures = e })
          (record {
            ctx = record c { remaining = inc32 c.remaining };
            uncut = n;
            in_flight = f + 1;
            last = held;
            failures = e;
          })
  submit_last :
      (c : LongContext) (f e : ℕ)
      → Step
          (record { ctx = c; uncut = 0; in_flight = f; last = held; failures = e })
          (record { ctx = c; uncut = 0; in_flight = f; last = flying; failures = e })
  complete_piece :
      (c : LongContext) (n f e status : ℕ) (l : LastPiece)
      → Step
          (record { ctx = c; uncut = n; in_flight = suc f; last = l; failures = e })
          (record {
            ctx = long_bio_endio status c;
            uncut = n;
            in_flight = f;
            last = l;
            failures = e + failure status;
          })
  complete_last :
      (c : LongContext) (n f e status : ℕ)
      → Step
          (record { ctx = c; uncut = n; in_flight = f; last = flying; failures = e })
          (record {
            ctx = user_bio_endio status c;
            uncut = n;
            in_flight = f;
            last = landed;
            failures = e + failure status;
          })

pub data Reach (n : ℕ) : Run → Type 0 where
  begin : Reach n (start n)
  next : (r r' : Run) → Reach n r → Step r r' → Reach n r'
