-- ===== src/Loop/Serve/Records.antt =====
-- `SSL_read` returns at most one record of the connection, and `loop` of loop.h reads a message by one
-- call: what that does to long messages.
use sponsoryeet.Prelude.{
  refl, lt→ltb, [], ◌==◌, ℕ, ◌<◌, ◌≤◌, ◌≡◌, ap, ◌∙◌, true, false, ◌++◌, inl, inr, Bool-cases, ltb,
  length, length-take, replicate, Bytes, ℤ, pos, negsuc, pos_part, if◌then◌else◌, arith,
}
use sponsoryeet.State.{Os, Machine}
use sponsoryeet.Connection.{Connection, read, resize}
use sponsoryeet.Chromecast.Frame.{from_big_endian}
use sponsoryeet.Loop.Serve.{ErrorNumbers, refused, message_limit, read_frame, read_body}
use sponsoryeet.Loop.Serve.Frames.{Delivers, read_frame-sized}

-- No read returns more than this.
abbrev pub ReadsAtMost : {W : Type 0} → ℕ → Os W → Type 0
ReadsAtMost {W} most os =
    (handle size : ℕ) (w : W) → pos_part (os.ssl_read handle size w).0.0 ≤ most

-- For the result of `SSL_read` that `read` works on.
delivered-le :
    (amount : ℤ) (buffer : Bytes) (conn : Connection)
    → length
        (elim amount as (λ _. Bytes × Connection) [
          | negsuc n ↦ ([], conn)
          | pos n ↦ (resize n buffer, if n == 0 then record conn { eof = true } else conn)
        ]).0
      ≤ pos_part amount
delivered-le (pos n) buffer conn = let size = length-take n (buffer ++ replicate n 0) in omega arith
delivered-le (negsuc n) buffer conn = omega arith

module _ {D W : Type 0} (os : Os W) (numbers : ErrorNumbers) where
  read_le :
      (most size : ℕ) (conn : Connection) (s : Machine D W)
      → ReadsAtMost most os
      → length (read os size conn s).0.0 ≤ most
  unfolding read
  read_le most size conn s h =
      let (result, w) = os.ssl_read conn.handle size s.world in
      let few = delivered-le result.0 result.1 conn in
      let bound = h conn.handle size s.world in omega (arith, few, bound)

  read_body-long :
      (most size : ℕ) (conn : Connection) (s : Machine D W)
      → ReadsAtMost most os
      → most < size
      → (read_body os numbers size conn s).0.0 ≡ refused numbers.ebadmsg
  unfolding read_body
  read_body-long most size conn s h l = elim (Bool-cases (ltb message_limit size)) [
    | inl e ↦ rw e refl
    | inr e ↦
        let short : ltb (length (read os size conn s).0.0) size ≡ true =
          lt→ltb _ _ (omega (arith, read_le most size conn s h)) in
        rw (e, short) refl
  ]

  -- If no call of `SSL_read` returns more than `most` bytes, then `loop` gives up with `EBADMSG` on
  -- every message that is announced as longer than `most`, even where the limit of 64 KB allows it.
  pub read_frame-long :
      (most : ℕ) (conn : Connection) (size : Bytes) (s : Machine D W)
      → ReadsAtMost most os
      → conn.eof ≡ false
      → length size ≡ 4
      → Delivers os conn s.world size
      → most < from_big_endian size
      → (read_frame os numbers conn s).0.0 ≡ refused numbers.ebadmsg
  read_frame-long most conn size s h q l d k =
      ap (λ r. r.0) (read_frame-sized os numbers conn size s q l d)
      ∙ read_body-long most (from_big_endian size) conn (read os 4 conn s).1 h k
