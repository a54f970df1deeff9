-- ===== src/Loop/Serve/Session.antt =====
-- What holds of every change that `loop` of loop.h makes from the connection's set-up to its release.
use sponsoryeet.Prelude.{
  ℕ, refl, ap, ◌∙◌, Bool, false, [], not, Bool-cases, inl, inr, if◌then◌else◌, Bytes,
}
use sponsoryeet.Cast.Protobuf.{Protobuf}
use sponsoryeet.Cast.Message.{CastMessage}
use sponsoryeet.State.{Address, Double, Globals, Os, Matcher, Machine, Action, return, call}
use sponsoryeet.State.View.{KeepsView, choose-KeepsView}
use sponsoryeet.State.Follows.{Covers, Follows, choose-Follows}
use sponsoryeet.Connection.{Connection, open_connection, close_connection}
use sponsoryeet.Connection
use sponsoryeet.Connection.Globals.{close_connection-globals, connect-globals}
use sponsoryeet.Chromecast.{send_simple, connection, receiver, get_status, MessageType, Namespace}
use sponsoryeet.Chromecast
use sponsoryeet.Chromecast.Effects.{send_simple-globals}
use sponsoryeet.Mdns.Query.{Net}
use sponsoryeet.Loop.Handle.{handle_message}
use sponsoryeet.Loop.Serve.{ErrorNumbers, Served, again, leave, greet_and_serve, loop}
use sponsoryeet.Loop.Serve.Follows.{lasting}
use sponsoryeet.Loop.Serve.Rounds.{serve-Follows}

module _ {D W : Type 0} (double : Double D) (os : Os W) (m : Matcher D W) (p : Protobuf CastMessage)
    (net : Net W) (numbers : ErrorNumbers) (first : Bool) (R : Globals D → Globals D → Type 0)
    (covers : Covers lasting R)
    (messages : (conn : Connection) (input : Bytes)
      → Follows R (handle_message double os m p first conn input))
    (stops : (g : Globals D) → R g (record g { running = false })) where
  greeting-Keeps :
      (conn : Connection) (type : MessageType) (urn : Namespace)
      → KeepsView lasting (send_simple double os p first conn type urn)
  greeting-Keeps conn type urn s =
      ap lasting (send_simple-globals double os p first conn type urn s)

  greet_and_serve-Follows :
      (rounds : ℕ) (conn : Connection)
      → Follows R (greet_and_serve double os m p net numbers first rounds conn)
  unfolding greet_and_serve
  greet_and_serve-Follows rounds conn s =
      let (greeted, s₁) = send_simple double os p first conn Chromecast.connect connection s in
      let (asked, s₂) =
        (if greeted then send_simple double os p first conn get_status receiver else return false)
          s₁ in
      let (now, s₃) = call os.time s₂ in
      let begun : Machine D W = record s₃ { globals = record s₃.globals { last_ping = now } } in
      let same =
        choose-KeepsView lasting greeted (send_simple double os p first conn get_status receiver)
          (return false) (greeting-Keeps conn get_status receiver) (λ t. refl) s₁
        ∙ greeting-Keeps conn Chromecast.connect connection s in
      elim (Bool-cases (not asked)) [
        | inl e ↦ rw e (covers.quiet s.globals _ same)
        | inr e ↦ rw e (
            covers.follow s.globals begun.globals _ (covers.quiet s.globals begun.globals same) (
              serve-Follows double os m p net numbers first R covers messages stops rounds conn
                begun))
      ]

  -- How `loop` ends.
  abbrev pub finish : Served → Action D W Served
  finish served = elim served [
    | again after ↦ return (again after)
    | leave code after ↦ λ t. (leave code after, (close_connection os after t).1)
  ]

  finish-Follows :
      (served : Served) (s : Machine D W) (g : Globals D)
      → R g s.globals
      → R g (finish served s).1.globals
  finish-Follows (again after) s g r = r
  finish-Follows (leave code after) s g r =
      covers.follow g s.globals _ r
        (covers.quiet s.globals _ (ap lasting (close_connection-globals os after s)))

  pub loop-Follows :
      (rounds : ℕ) (address : Address)
      → Follows R (loop double os m p net numbers first rounds address)
  unfolding loop open_connection
  loop-Follows rounds address s =
      let s₀ : Machine D W = record s { globals = record s.globals { dest = [] } } in
      let (opened, s₁) = open_connection os s₀ in
      let ((connected, conn), s₂) = Connection.connect os address opened s₁ in
      let (served, s₃) =
        (if connected
            then greet_and_serve double os m p net numbers first rounds conn
            else return (leave (os.errno s₂.world) conn))
          s₂ in
      let same = ap lasting (connect-globals os address opened s₁) in
      finish-Follows served s₃ s.globals (
        covers.follow s.globals s₂.globals s₃.globals (covers.quiet s.globals s₂.globals same) (
          choose-Follows R connected (greet_and_serve double os m p net numbers first rounds conn)
            (return (leave (os.errno s₂.world) conn)) (greet_and_serve-Follows rounds conn)
            (λ t. covers.quiet t.globals t.globals refl) s₂))
