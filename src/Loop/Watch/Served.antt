-- ===== src/Loop/Watch/Served.antt =====
-- The rounds of loop.h as steps of what is watched.
use sponsoryeet.Prelude.{ap}
use sponsoryeet.State.{Os, Matcher}
use sponsoryeet.State.Follows.{Covers}
use sponsoryeet.Loop.Watch.{Viewer, Moves-trans, Steps, still}
use sponsoryeet.Loop.Serve.Follows.{Lasting, lasting}

abbrev of_lasting : {D : Type 0} → Lasting D → Viewer D
of_lasting l = record { categories = l.categories; watched = l.watched }

pub Steps-Covers :
    {D W : Type 0} (os : Os W) (m : Matcher D W) → Covers {D = D} lasting (Steps os m)
Steps-Covers os m = record {
  quiet = λ g h e. still os m g h (ap of_lasting e);
  follow = λ g h k r t. Moves-trans os m r t;
}
