-- ===== src/Request/Completion.antt =====
-- Every order in which the pieces of a long bio can complete.
use lbz.Prelude.{
  ℕ, ◌+◌, ◌-◌, ◌≤◌, ◌<◌, ◌≡◌, refl, Bool, true, false, ◌&&◌, ◌||◌, ◌==◌, if◌then◌else◌, arith,
}
use lbz.Prelude.Words.{word, inc32_lem, dec32_lem}
use lbz.Request.LongBio.{
  LongContext, drop_piece, long_bio_endio, user_bio_endio, LastPiece, held, landed, Run, failure,
  Step, cut, submit_last, complete_piece, complete_last, Reach, begin, next,
}

abbrev pub is_held : LastPiece → Bool
is_held held = true
is_held _ = false

abbrev pub is_landed : LastPiece → Bool
is_landed landed = true
is_landed _ = false

record Going (n : ℕ) (r : Run) : Type 0 where
  bound : r.uncut + r.in_flight ≤ n
  remaining : r.ctx.remaining ≡ r.in_flight + (if is_landed r.last then 0 else 1)
  ended : r.ctx.ended ≡ (if is_landed r.last && r.in_flight == 0 then 1 else 0)
  cut_first : (is_held r.last || r.uncut == 0) ≡ true
  status : (r.ctx.user_status == 0) ≡ (r.failures == 0)

ended_lem :
    (r : Run)
    → r.ctx.ended ≡ (if is_landed r.last && r.in_flight == 0 then 1 else 0)
    → (is_held r.last || r.uncut == 0) ≡ true
    → r.ctx.ended ≡ (if r.uncut == 0 && (r.in_flight == 0 && is_landed r.last) then 1 else 0)
ended_lem r e c = ground (arith, e, c)

-- What a completion does to the context.
record Dropped (c c' : LongContext) (status : ℕ) : Type 0 where
  remaining : c'.remaining + 1 ≡ c.remaining
  ended : c'.ended ≡ (if c.remaining == 1 then c.ended + 1 else c.ended)
  clean : (c'.user_status == 0) ≡ (c.user_status == 0 && status == 0)

drop_piece_lem :
    (c : LongContext)
    → 0 < c.remaining
    → c.remaining ≤ word
    → ((drop_piece c).remaining + 1 ≡ c.remaining)
      × ((drop_piece c).ended ≡ (if c.remaining == 1 then c.ended + 1 else c.ended))
      × ((drop_piece c).user_status ≡ c.user_status)
unfolding drop_piece
drop_piece_lem c pos small = ground (arith, dec32_lem c.remaining pos small)

long_bio_endio-Dropped :
    (status : ℕ) (c : LongContext)
    → 0 < c.remaining
    → c.remaining ≤ word
    → Dropped c (long_bio_endio status c) status
unfolding long_bio_endio
long_bio_endio-Dropped status c pos small =
    let same = drop_piece_lem c pos small in
    let stored = drop_piece_lem (record c { user_status = status }) pos small in
    record {
      remaining = ground (arith, same, stored);
      ended = ground (arith, same, stored);
      clean = ground (arith, same, stored);
    }

user_bio_endio-Dropped :
    (status : ℕ) (c : LongContext)
    → 0 < c.remaining
    → c.remaining ≤ word
    → Dropped c (user_bio_endio status c) status
unfolding user_bio_endio
user_bio_endio-Dropped status c pos small =
    let same = drop_piece_lem c pos small in
    let stored = drop_piece_lem (record c { user_status = status }) pos small in
    record {
      remaining = ground (arith, same, stored);
      ended = ground (arith, same, stored);
      clean = ground (arith, same, stored);
    }

clean_lem :
    (before after status e : ℕ)
    → (before == 0) ≡ (e == 0)
    → (after == 0) ≡ (before == 0 && status == 0)
    → (after == 0) ≡ (e + failure status == 0)
clean_lem before after status e h k = ground arith

module _ (n : ℕ) (fits : n < word - 1) where
  Step-Going : {r r' : Run} → Going n r → Step r r' → Going n r'
  Step-Going v (cut c m f e) = record {
    bound = omega (arith, v.bound);
    remaining = omega (arith, v.remaining, v.bound, inc32_lem c.remaining);
    ended = v.ended;
    cut_first = refl;
    status = v.status;
  }
  Step-Going v (submit_last c f e) = record {
    bound = v.bound;
    remaining = v.remaining;
    ended = v.ended;
    cut_first = refl;
    status = v.status;
  }
  Step-Going v (complete_piece c m f e s l) =
      let d =
        long_bio_endio-Dropped s c (omega (arith, v.remaining))
          (ground (arith, v.remaining, v.bound)) in
      record {
        bound = omega (arith, v.bound);
        remaining = omega (arith, v.remaining, d.remaining);
        ended = ground (arith, v.ended, v.remaining, d.ended);
        cut_first = v.cut_first;
        status = clean_lem c.user_status _ s e v.status d.clean;
      }
  Step-Going v (complete_last c m f e s) =
      let d =
        user_bio_endio-Dropped s c (omega (arith, v.remaining))
          (omega (arith, v.remaining, v.bound)) in
      record {
        bound = v.bound;
        remaining = omega (arith, v.remaining, d.remaining);
        ended = ground (arith, v.ended, v.remaining, d.ended);
        cut_first = v.cut_first;
        status = clean_lem c.user_status _ s e v.status d.clean;
      }

  Reach-Going : {r : Run} → Reach n r → Going n r
  Reach-Going begin = record {
    bound = omega arith;
    remaining = refl;
    ended = refl;
    cut_first = refl;
    status = refl;
  }
  Reach-Going (next r r' h s) = Step-Going (Reach-Going h) s

  -- However the cutting and the completions interleave, the user's bio has been ended exactly once when
  -- all pieces were submitted and have completed, and not before; its status is an error just if some
  -- piece failed.
  pub long_bio_ends_once :
      {r : Run}
      → Reach n r
      → (r.ctx.ended ≡ (if r.uncut == 0 && (r.in_flight == 0 && is_landed r.last) then 1 else 0))
        × ((r.ctx.user_status == 0) ≡ (r.failures == 0))
  long_bio_ends_once {r} h = let v = Reach-Going h in (ended_lem r v.ended v.cut_first, v.status)
