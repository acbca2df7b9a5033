-- ===== src/IoScheduler/ReadBack.antt =====
-- `__submit_read_io`, and a read after a write.
use lbz.Prelude.Words.{word}
use lbz.Prelude.{
  ◌*◌, ◌%◌, ◌^◌, ◌≢◌, ℕ, ◌≡◌, ◌<◌, ◌∙◌, refl, ap, List, [], ◌∷◌, ◌++◌, some, false, true, not, ◌&&◌,
  Bool-cases, inl, inr, ◌==◌, if◌then◌else◌, arith,
}
use lbz.Config.{enoent}
use lbz.Block.{sector_to_blkid, blkid_to_sector}
use lbz.Zone.{get_zone}
use lbz.Metadata.{get_zone_by_pbid, modify_zone}
use lbz.Mapping.{invalid_pbid, mapped}
use lbz.Mapping.Lookup.{found, failed, look, lookup, lookup-mapped}
use lbz.Request.{Bio}
use lbz.IoScheduler.{Event, ended, read_io, Device, Env, emit}
use lbz.IoScheduler.Read.{count_zero, count_read, submit_read_io}
use lbz.IoScheduler.Write.{write_io_endio}
use lbz.IoScheduler.Consistent.{Agree}
use lbz.IoScheduler.WriteDone.{EndsAt, Dispatched, write_io_endio_lem}

append_two : (es : List Event) (a b : Event) → (es ++ (a ∷ [])) ++ (b ∷ []) ≡ es ++ (a ∷ b ∷ [])
append_two [] a b = refl
append_two (e ∷ es) a b = ap (λ r. e ∷ r) (append_two es a b)

module _ (env : Env) where
  lookup_unmapped :
      (d : Device) (b p : ℕ)
      → mapped env.layout d.mapping b ≡ some p
      → p == invalid_pbid ≡ true
      → lookup env.layout env.zone_no d.mapping d.zone_metadata b
        ≡ some (failed enoent, d.zone_metadata)
  unfolding look
  lookup_unmapped d b p e h =
      rw (lookup-mapped env.layout env.zone_no d.mapping d.zone_metadata b, e, h) refl

  lookup_held :
      (d : Device) (b p : ℕ)
      → mapped env.layout d.mapping b ≡ some p
      → p == invalid_pbid ≡ false
      → lookup env.layout env.zone_no d.mapping d.zone_metadata b
        ≡ some (
          found (get_zone_by_pbid env.zone_no p) p,
          modify_zone d.zone_metadata (get_zone_by_pbid env.zone_no p) get_zone,
        )
  unfolding look
  lookup_held d b p e h =
      rw (lookup-mapped env.layout env.zone_no d.mapping d.zone_metadata b, e, h) refl

  -- The event of a read of a block that is mapped to `p`.
  abbrev answer : Bio → ℕ → Event
  answer bio p = if p == invalid_pbid then ended bio false else read_io bio (blkid_to_sector p)

  -- The same from the first of the eight sectors that the block `p` of the disk has.
  abbrev pub answer_at : Bio → ℕ → Event
  answer_at bio p = if p == invalid_pbid then ended bio false else read_io bio (p * 8)

  answer-answer_at :
      (bio : Bio) (p : ℕ) → (p ≢ invalid_pbid → p < 2 ^ 29) → answer bio p ≡ answer_at bio p
  unfolding blkid_to_sector
  answer-answer_at bio p small = elim (Bool-cases (p == invalid_pbid)) [
    | inl unmapped ↦ rw unmapped refl
    | inr held ↦
        let lt = small (ground (arith, held)) in
        let whole : p * 8 % word ≡ p * 8 = omega (arith, lt) in rw held (ap (read_io bio) whole)
  ]

  -- What a read of a block that is mapped to `p` does.
  submit_read_io_run :
      (d : Device) (bio : Bio) (p : ℕ)
      → mapped env.layout d.mapping (sector_to_blkid bio.sector) ≡ some p
      → (d' : Device) × (submit_read_io env d bio ≡ some d')
        × (d'.mapping ≡ d.mapping)
        × (d'.events ≡ d.events ++ (answer bio p ∷ []))
        × ((z : ℕ)
            → d'.zone_metadata.zones z ≡ (
                if not (p == invalid_pbid) && get_zone_by_pbid env.zone_no p == z
                then get_zone (d.zone_metadata.zones z)
                else d.zone_metadata.zones z))
  unfolding submit_read_io
  submit_read_io_run d bio p e =
      let b = sector_to_blkid bio.sector in
      elim (Bool-cases (p == invalid_pbid)) [
        | inl unmapped ↦ (
          count_zero env (emit (ended bio false) d),
          rw (lookup_unmapped d b p e unmapped) refl,
          refl,
          rw unmapped refl,
          λ z. rw unmapped refl,
        )
        | inr held ↦
            let z = get_zone_by_pbid env.zone_no p in
            (
              emit (read_io bio (blkid_to_sector p)) (
                  count_read env
                    (record d { zone_metadata = modify_zone d.zone_metadata z get_zone })),
              rw (lookup_held d b p e held) refl,
              refl,
              rw held refl,
              λ k. rw held (elim (Bool-cases (z == k)) [
                | inl same ↦ let at : z ≡ k = ground (arith, same) in rw (same, at) refl
                | inr other ↦ rw other refl
              ]),
            )
      ]

  -- A read of a block that is mapped to `p` faults nowhere and leaves the mapping. Where `p` is invalid
  -- the bio is ended at once, without an error, and the zones stay; else, with `p` below 2 ^ 29, the bio is
  -- read from the sector 8 * `p`, and the zone of `p`, and no other, has a reference more.
  pub submit_read_io_lem :
      (d : Device) (bio : Bio) (p : ℕ)
      → mapped env.layout d.mapping (sector_to_blkid bio.sector) ≡ some p
      → (p ≢ invalid_pbid → p < 2 ^ 29)
      → (d' : Device) × (submit_read_io env d bio ≡ some d')
        × (d'.mapping ≡ d.mapping)
        × (d'.events ≡ d.events ++ (answer_at bio p ∷ []))
        × ((z : ℕ)
            → d'.zone_metadata.zones z ≡ (
                if not (p == invalid_pbid) && get_zone_by_pbid env.zone_no p == z
                then get_zone (d.zone_metadata.zones z)
                else d.zone_metadata.zones z))
  submit_read_io_lem d bio p e small =
      let (d', ran, mapping, events, zones) = submit_read_io_run d bio p e in
      (
        d',
        ran,
        mapping,
        events ∙ ap (λ x. d.events ++ (x ∷ [])) (answer-answer_at bio p small),
        zones,
      )

  -- Once a write of a block of the device ended well at the block `p`, under the conditions of its
  -- completion, a read of the written block faults nowhere and reads `p`.
  pub read_after_write :
      (d : Device) (i zone : ℕ) (ret_sec : ℕ) (bio : Bio)
      → Agree env.layout env.zone_no d.mapping d.zone_metadata
      → Dispatched env d i zone
      → (d.tasks i).blkid < d.mapping.max_blkid
      → EndsAt env d zone (sector_to_blkid ret_sec)
      → sector_to_blkid bio.sector ≡ (d.tasks i).blkid
      → (d' d'' : Device) × (write_io_endio env d i true ret_sec ≡ some d')
        × (submit_read_io env d' bio ≡ some d'')
        × (d''.events
            ≡ d.events
              ++ (ended (d.tasks i).bio false
                  ∷ read_io bio (blkid_to_sector (sector_to_blkid ret_sec))
                  ∷ []))
  read_after_write d i zone ret_sec bio v w h at same =
      let p = sector_to_blkid ret_sec in
      let (d', e, _, law, events, _, _) =
        write_io_endio_lem env d i zone true ret_sec v w h (λ _. at) in
      let m : mapped env.layout d'.mapping (sector_to_blkid bio.sector) ≡ some p =
        rw same (ground (arith, law (d.tasks i).blkid)) in
      let (d'', e', _, events', _) = submit_read_io_run d' bio p m in
      let valid : p == invalid_pbid ≡ false = ground (arith, at.0) in
      (d', d'', e, e', events' ∙ rw (events, valid) (append_two d.events _ _))
