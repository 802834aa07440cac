-- ===== src/Examples/Bus.antt =====
-- The realtime hub: a dashboard that subscribes, an agent, and an event.
use db_backup_app.Base.{◌≡◌, true, some, List, [], ◌∷◌, lit}
use db_backup_app.Hub.{Identity, Directory, Event, body, subscribes, nobody, new_hub}
use db_backup_app.Hub.Simulation.{run_refines, new_hub-Valid}
use db_backup_app.Hub.View.{
  Op, enters, says, publishes, commands, writes, leaves, Valid, view_of, run, replay,
}

abbrev directory : Directory
directory = record {
  parse = λ t. some 1;
  is_member = λ org user. true;
  owns_run = λ a r. true;
  uuid_text = λ n. n ∷ [];
  time = [];
}

abbrev agent_three : Identity
agent_three = record nobody { agent = 3; organization = 1; is_agent = true }

abbrev news : Event
news = record { type = lit "run"; org = []; payload = body [] }

-- A dashboard watches an organization, hears of an event there, and leaves; the agent gets a command.
abbrev morning : List Op
morning =
    enters nobody
    ∷ enters agent_three
    ∷ says directory 0 (subscribes (lit "o"))
    ∷ publishes (lit "o") news
    ∷ commands 3 news
    ∷ writes 0
    ∷ leaves 0
    ∷ publishes (lit "o") news
    ∷ []

run_refines_example :
    Valid (run new_hub morning) × (view_of (run new_hub morning) ≡ replay (view_of new_hub) morning)
run_refines_example = run_refines new_hub morning new_hub-Valid
