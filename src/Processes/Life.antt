-- ===== src/Processes/Life.antt =====
-- What a parent may do to a child, as a step relation on what has become of the child: it is started
-- once, it may be killed, it is waited for once, and its process group may be killed after that.
use problem_verifier.Prelude.{List, [], ◌∷◌, ◌≢◌}
use problem_verifier.Processes.{Child, the_solution, the_validator, Event, started, reaped, killed}

pub data Life : Type 0 where
  absent running gone : Life

abbrev pub child_of : Event → Child
child_of (started child) = child
child_of (reaped child) = child
child_of (killed child) = child

-- The events, of which the last one is first, that may lead to this. A second wait for a child would
-- fail, and so would a wait for one that was not started.
pub data Lives (child : Child) : List Event → Life → Type 0 where
  unborn : Lives child [] absent
  starts :
      {events : List Event}
      → Lives child events absent
      → Lives child (started child ∷ events) running
  stops :
      {events : List Event}
      → Lives child events running
      → Lives child (killed child ∷ events) running
  ends :
      {events : List Event} → Lives child events running → Lives child (reaped child ∷ events) gone
  cleans :
      {events : List Event} → Lives child events gone → Lives child (killed child ∷ events) gone
  passes :
      {events : List Event} {life : Life} (event : Event)
      → child_of event ≢ child
      → Lives child events life
      → Lives child (event ∷ events) life

pub solution-≢-validator : the_solution ≢ the_validator
solution-≢-validator e = cc

pub validator-≢-solution : the_validator ≢ the_solution
validator-≢-solution e = cc
