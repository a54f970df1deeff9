-- ===== src/Loop/Seek/Told.antt =====
-- What the device receives of a seek of loop.h.
use sponsoryeet.Prelude.{ℕ, ◌+◌, ◌^◌, ◌<◌, ◌≡◌, Bool, true, false, length, drop, is_empty, Bytes}
use sponsoryeet.Cast.Protobuf.{Protobuf, IsProtobuf}
use sponsoryeet.Cast.Message.{CastMessage, size_content, parse_message}
use sponsoryeet.Cast.Message.Written.{IsSendable}
use sponsoryeet.State.{Double, Globals, Os, Machine}
use sponsoryeet.Connection.{Connection, write}
use sponsoryeet.Chromecast.{namespace_text, media, outgoing, seek_text}
use sponsoryeet.Chromecast.Frame.{from_big_endian}
use sponsoryeet.Loop.Position.{nought}
use sponsoryeet.Loop.Seek.{seeking}

module _ {D W : Type 0} (double : Double D) (os : Os W) (p : Protobuf CastMessage)
    (laws : IsProtobuf p) (first : Bool) where
  -- The message that the device is to receive.
  abbrev pub seek_message : Globals D → D → CastMessage
  seek_message g end =
      outgoing g.dest (namespace_text media) (seek_text double g.request_id g.media_session end)

  -- The variables behind a seek.
  abbrev pub sought : ℕ → Globals D → Globals D
  sought now g = record (seeking double now g) { request_id = g.request_id + 1 }

  -- From `clock` on the clock has been read twice, and one write has been made, of a frame that a reader
  -- takes for the message, with the variables as behind a seek in the second that was read last.
  abbrev pub Told : Connection → Globals D → D → CastMessage → W → Machine D W → Type 0
  Told conn g end old clock after =
      let (now, w) = os.time (os.time clock).1 in
      (frame : Bytes) × (after
        ≡ (write os conn frame (record { globals = sought now g; world = w })).1)
      × (from_big_endian frame ≡ length (drop 4 frame))
      × (parse_message p (drop 4 frame) old ≡ (true, seek_message g end))

  -- What has to hold for a seek to go out, where the clock is read in `w`.
  pub record IsDue (g : Globals D) (end : D) (w : W) : Type 0 where
    pub session : is_empty g.media_session ≡ false
    pub playing : g.currently_playing ≡ true
    pub passed : g.last_seek < (os.time w).0
    pub ahead : double.lt end (nought double) ≡ false
    pub sendable : IsSendable p (seek_message g end)
    pub small : size_content p (seek_message g end) < 2 ^ 31
