-- ===== src/Tests/Daemon.antt =====
-- Runs of src/daemon.c: rounds of its loop, its configuration and its link.
use shclaw.Base.{
  ℕ, ◌+◌, ◌≤◌, ◌≡◌, refl, true, false, Option, some, none, List, [], ◌∷◌, arith, codes, Bytes, ◌==◌,
  if◌then◌else◌, strcmp_eq,
}
use shclaw.Base.Int.{ℤ, pos}
use shclaw.Messenger.{messenger_receive}
use shclaw.Scheduler.Tasks.{absent, sched_get_due}
use shclaw.Tests.Scheduler.{sys}
use shclaw.Daemon.Dispatch.{
  Agents, Daemon, serve_queue, queued_for, visit, visit_inbox, visit_all, dispatch,
}
use shclaw.Daemon.Start.{Queued, Launch, agent_idle, start_session, open_session}
use shclaw.Daemon.Dispatch.Fair.{starts, idle_count, dispatch-fair}
use shclaw.Daemon.Link.{
  Link, irc_lost, irc_maintain, settle, Attempt, Call, lost, call, next_backoff, run,
}
use shclaw.Daemon.Link.Paced.{latest, later, time_of, run-retries}
use shclaw.Daemon.Config.{load_agents, AgentConfig}
use shclaw.Daemon.Providers.{Provider}
use shclaw.Daemon.Config.Loaded.{IsLoaded, load_agents-IsLoaded}
use shclaw.Ini.{ini_load, ini_get}
use shclaw.Irc.Client.{irc_connect}
use shclaw.Tests.IrcClient.{link}
use shclaw.Daemon.Dispatch.Kept.{IsKept, dispatch-IsKept}

abbrev launch : ℕ → Launch
launch n = record {
  sid = codes "s1";
  mid = codes "m1";
  now = codes "now";
  saved = false;
  created = true;
}

-- Agent 0 works, agents 1 and 2 are idle.
abbrev agents : Agents
agents n = record { name = codes "bot"; busy = n == 0; last_session_time = pos 10; tasks = absent }

abbrev waiting : List Queued
waiting =
    record { agent = 0; text = codes "a" }
    ∷ record { agent = 1; text = codes "b" }
    ∷ record { agent = 1; text = codes "c" }
    ∷ []

abbrev daemon : Daemon
daemon = record {
  agents = agents;
  n_agents = 3;
  queue = waiting;
  mails = record { agents = []; mails = [] };
  files = λ s. none;
}

round :
    (dispatch sys launch launch (pos 20) true daemon).0.queue
    ≡ record { agent = 0; text = codes "a" } ∷ record { agent = 1; text = codes "c" } ∷ []
unfolding dispatch serve_queue agent_idle start_session open_session visit_all visit queued_for
    visit_inbox sched_get_due messenger_receive
round = refl

dispatch-fair_example :
    starts 1 (dispatch sys launch launch (pos 20) true daemon).1
      + idle_count (pos 20) ((dispatch sys launch launch (pos 20) true daemon).0.agents 1)
    ≤ idle_count (pos 20) (daemon.agents 1)
dispatch-fair_example = dispatch-fair sys launch launch (pos 20) true daemon 1

dispatch-IsKept_example :
    IsKept
      (pos 20)
      daemon
      (dispatch sys launch launch (pos 20) true daemon).0
      (dispatch sys launch launch (pos 20) true daemon).1
dispatch-IsKept_example = dispatch-IsKept sys launch launch (pos 20) true daemon (λ j. refl)

abbrev tried : Attempt
tried = record { reached = false; anchored = true; shaken = true; clock = 0; after = 400001 }

abbrev online : Link
online = record { irc = link; backoff = 0; retry_at = 0 }

-- A link that was lost twice
abbrev calls : List Call
calls = lost 1000 ∷ lost 2000 ∷ []

twice_lost : (run calls online).retry_at ≡ 12000
unfolding run irc_lost call next_backoff
twice_lost = refl

is_down : (run calls online).irc.up ≡ false
unfolding run irc_lost call next_backoff
is_down = refl

latest_bounds : latest 0 calls + 300000 ≤ 400000
unfolding latest later time_of
latest_bounds = omega arith

run-retries_example :
    irc_maintain tried 400000 400000 (run calls online)
    ≡ settle tried (run calls online) (irc_connect false true true 0 (run calls online).irc)
run-retries_example =
    run-retries 0 calls online tried 400000 400000
      (record { pause = omega arith; wait = omega arith }) is_down latest_bounds

abbrev atoi : Bytes → ℤ
atoi s = pos 7

abbrev providers : List Provider
providers =
    record {
      provider_name = codes "local";
      provider_type = codes "openai";
      api_key = codes "k";
      base_url = [];
      model = [];
      max_tokens = pos 0;
      timeout = pos 0;
      cache_key = [];
      reasoning_effort = [];
    }
    ∷ []

-- Two files that give one name
abbrev files : Bytes → Option Bytes
files s =
    if strcmp_eq s (codes "b.ini")
    then some (codes "[agent]\nname = Bob\nmodel = local/m\n")
    else some (codes "[agent]\nname = bob\nhub = yes\n")

abbrev dir_entries : List Bytes
dir_entries = codes "b.ini" ∷ codes "notes" ∷ codes "a.ini" ∷ []

abbrev names_of : List AgentConfig → List Bytes
names_of [] = []
names_of (a ∷ rest) = a.name ∷ names_of rest

loaded_names : names_of (load_agents atoi [] providers files dir_entries) ≡ codes "bob" ∷ []
unfolding load_agents ini_load ini_get
loaded_names = refl

load_agents-IsLoaded_example : IsLoaded (load_agents atoi [] providers files dir_entries)
load_agents-IsLoaded_example = load_agents-IsLoaded atoi [] providers files dir_entries
