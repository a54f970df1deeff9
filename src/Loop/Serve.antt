-- ===== src/Loop/Serve.antt =====
-- `loop` of loop.h: the connection's set-up, and the rounds that serve it. Printing, with the progress
-- bar, is left out.
pub mod Frames
pub mod Records
pub mod Interrupted
pub mod Alive
pub mod Heartbeat
pub mod Follows
pub mod Rounds
pub mod Quit
pub mod Session
pub mod Options
pub mod Steady
pub mod Released
use sponsoryeet.Prelude.{
  ℕ, zero, suc, ◌+◌, Bool, true, false, not, ◌&&◌, ◌||◌, ◌==◌, if◌then◌else◌, ltb, length, pos, [],
  ◌*◌, Bytes, codes, bytes_eq, ℤ, negsuc,
}
use sponsoryeet.Cast.Protobuf.{Protobuf}
use sponsoryeet.Cast.Message.{CastMessage}
use sponsoryeet.State.{Address, Double, Os, Matcher, Action, ◌>>=◌, ◌>>◌, return, get, modify, call}
use sponsoryeet.Connection.{Connection, ping_interval, open_connection, close_connection, read}
use sponsoryeet.Connection
use sponsoryeet.Chromecast.{
  send_simple, send_simple_media, connection, receiver, heartbeat, media, ping, get_status,
}
use sponsoryeet.Chromecast
use sponsoryeet.Chromecast.Frame.{from_big_endian}
use sponsoryeet.Mdns.Query.{Events, Net, is_negative, is_nothing, quits}
use sponsoryeet.Loop.Position.{minus_one, nought, current_position}
use sponsoryeet.Loop.Handle.{handle_message}

-- The error numbers that the code returns.
pub record ErrorNumbers : Type 0 where
  pub etimedout : ℕ
  pub ebadmsg : ℕ
  pub econnreset : ℕ

-- The message that was read, or the error number that `loop` returns.
pub data Incoming : Type 0 where
  body : Bytes → Incoming
  refused : ℕ → Incoming

-- A round goes on with the connection, or `loop` returns.
pub data Served : Type 0 where
  again : Connection → Served
  leave : ℕ → Connection → Served

abbrev pub is_space : ℤ → Bool
is_space (pos n) = n == b' '
is_space (negsuc n) = false

-- The most bytes that a message may have.
abbrev pub message_limit : ℕ
message_limit = 64 * 1024

module _ {D W : Type 0} (os : Os W) (numbers : ErrorNumbers) where
  open numbers use {etimedout, ebadmsg, econnreset}

  -- The message behind a size that has been read.
  pub read_body : ℕ → Connection → Action D W (Incoming × Connection)
  read_body size conn = if ltb message_limit size then return (refused ebadmsg, conn) else (do
    (response, after) ← read os size conn
    return ((if ltb (length response) size then refused ebadmsg else body response), after))

  unfoldable pub read_frame : Connection → Action D W (Incoming × Connection)
  read_frame conn = do
    (size, after) ← read os 4 conn
    if not (length size == 4)
        then return (refused ebadmsg, after)
        else if after.eof
        then return (refused econnreset, after)
        else read_body (from_big_endian size) after

module _ {D W : Type 0} (double : Double D) (os : Os W) (m : Matcher D W) (p : Protobuf CastMessage)
    (net : Net W) (numbers : ErrorNumbers) (first : Bool) where
  open numbers use {etimedout, ebadmsg, econnreset}

  -- The space key.
  pub toggle : Connection → Action D W (Unit {0})
  toggle conn = do
    g ← get
    if bytes_eq g.current_status (codes "PLAYING")
        then (do sent ← send_simple_media double os p first conn (codes "PAUSE"); return tt)
        else if bytes_eq g.current_status (codes "PAUSED")
        then (do sent ← send_simple_media double os p first conn (codes "PLAY"); return tt)
        else return tt

  -- A timeout of `select`: the status is asked for when a segment is due.
  pub ask_if_due : Connection → Action D W (Unit {0})
  ask_if_due conn = do
    g ← get
    due ←
        if double.lt (nought double) g.next_segment_start
        then (do
          now ← call os.time
          return (double.le g.next_segment_start (double.of_int (pos now))))
        else return false
    if due
        then (do
          modify (λ h. record h { next_segment_start = minus_one double })
          asked ← send_simple double os p first conn get_status media
          return tt)
        else return tt

  -- A timeout of `select`: a ping when nothing has come for long. `false` if the ping fails.
  pub ping_if_due : Connection → Action D W Bool
  ping_if_due conn = do
    g ← get
    now ← call os.time
    if ltb (g.last_ping + ping_interval) now
        then (do
          sent ← send_simple double os p first conn ping heartbeat
          if not sent then return false else (do
            later ← call os.time
            modify (λ h. record h { last_ping = later })
            return true))
        else return true

  -- What was read on the socket.
  pub take_incoming : Connection → Incoming → Action D W Served
  take_incoming after (refused code) = return (leave code after)
  take_incoming after (body response) = do
    fine ← handle_message double os m p first after response
    if not fine || after.eof then return (leave econnreset after) else (do
      now ← call os.time
      modify (λ g. record g { last_ping = now })
      return (again after))

  pub take_message : Connection → Action D W Served
  take_message conn = do
    (incoming, after) ← read_frame os numbers conn
    take_incoming after incoming

  -- What follows the keys: a timeout, and then the socket.
  pub serve_socket : Events → Connection → Action D W Served
  serve_socket events conn = do
    pinged ← if is_nothing events.count then (do ask_if_due conn; ping_if_due conn) else return true
    if not pinged
        then return (leave etimedout conn)
        else if not events.socket
        then return (again conn)
        else take_message conn

  -- A key, and then the rest of the round.
  unfoldable pub after_select : Events → Connection → Action D W Served
  after_select events conn = do
    key ← if events.stdin then call net.getchar else return (pos 0)
    if quits key
        then (do modify (λ g. record g { running = false }); return (leave 0 conn))
        else (do
          toggled ← if is_space key then toggle conn else return tt
          serve_socket events conn)

  -- One round. `errno` is read whether or not `select` failed.
  unfoldable pub serve_round : Connection → Action D W Served
  serve_round conn = do
    events ← call (net.select conn.fd)
    position ← current_position double os
    error ← call (λ w. (os.errno w, w))
    if is_negative events.count
        then return (leave error conn)
        else if error == net.eintr
        then return (again conn)
        else after_select events conn

  -- The next round, if the last one did not return.
  unfoldable pub resume : (Connection → Action D W Served) → Served → Action D W Served
  resume more (again after) = more after
  resume more (leave code after) = return (leave code after)

  -- `rounds` bounds the rounds; `s_running` is cleared by a key, or by the signal handler.
  pub serve : ℕ → Connection → Action D W Served
  serve zero conn = return (again conn)
  serve (suc rounds) conn = do
    g ← get
    going ← call net.running
    if not (g.running && going) || conn.eof
        then return (leave 0 conn)
        else (do next ← serve_round conn; resume (serve rounds) next)

  -- From the connection's first message on.
  pub greet_and_serve : ℕ → Connection → Action D W Served
  greet_and_serve rounds conn = do
    greeted ← send_simple double os p first conn Chromecast.connect connection
    asked ← if greeted then send_simple double os p first conn get_status receiver else return false
    error ← call (λ w. (os.errno w, w))
    if not asked
        then return (leave error conn)
        else (do now ← call os.time; modify (λ g. record g { last_ping = now }); serve rounds conn)

  -- The connection is released on every return.
  unfoldable pub loop : ℕ → Address → Action D W Served
  unfolding greet_and_serve serve
  loop rounds address = do
    modify (λ g. record g { dest = [] })
    opened ← open_connection os
    (connected, conn) ← Connection.connect os address opened
    error ← call (λ w. (os.errno w, w))
    served ← if connected then greet_and_serve rounds conn else return (leave error conn)
    elim served [
      | again after ↦ return (again after)
      | leave code after ↦ do closed ← close_connection os after; return (leave code after)
    ]
