-- ===== src/Loop/Serve/Alive.antt =====
-- The pings of `loop` of loop.h.
use sponsoryeet.Prelude.{Bool}
use sponsoryeet.Cast.Protobuf.{Protobuf}
use sponsoryeet.Cast.Message.{CastMessage}
use sponsoryeet.State.{Double, Os, Matcher, Machine, call}
use sponsoryeet.Connection.{Connection}
use sponsoryeet.Chromecast.{send_simple, ping, heartbeat}
use sponsoryeet.Mdns.Query.{Net}
use sponsoryeet.Loop.Serve.{ErrorNumbers}

module _ {D W : Type 0} (double : Double D) (os : Os W) (m : Matcher D W) (p : Protobuf CastMessage)
    (net : Net W) (numbers : ErrorNumbers) (first : Bool) where
  -- A ping, sent after the clock was read.
  abbrev pub ping_after : Connection → Machine D W → Bool × Machine D W
  ping_after conn s = send_simple double os p first conn ping heartbeat (call os.time s).1
