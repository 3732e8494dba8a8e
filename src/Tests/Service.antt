-- ===== src/Tests/Service.antt =====
-- A small service: a note changes while a call is answered.
use graphify_daemon_portfoli.Prelude.{◌≤◌, ◌≡◌, refl, true, [], ◌∷◌, String-discrete}
use graphify_daemon_portfoli.Prelude.Dict.{lookup}
use graphify_daemon_portfoli.Compiler.Snapshot.{publish, new_holder, current_version}
use graphify_daemon_portfoli.Query.Cache
use graphify_daemon_portfoli.Query.Cache.{CacheKey-discrete, init}
use graphify_daemon_portfoli.Query.Tools.Schema.{tool_by_name}
use graphify_daemon_portfoli.Query.Tools.Dispatch.{begin, start_tool, cache_key, dispatch}
use graphify_daemon_portfoli.Daemon.{Daemon}
use graphify_daemon_portfoli.Daemon.Threads
use graphify_daemon_portfoli.Daemon.Service.{
  Service, Leads, still, later, threads, beginning, finishing, IsServed, unpublished, published,
  start, call_begins, call_finishes, health_route,
}
use graphify_daemon_portfoli.Daemon.Service.Answers.{service-Transparent}
use graphify_daemon_portfoli.Daemon.Service.Readiness.{ready_for_good}
use graphify_daemon_portfoli.Tests.Fixtures.{library, new_note, daemon}
use graphify_daemon_portfoli.Tests.Validation.{validator}
use graphify_daemon_portfoli.Tests.Tools.{reader, question, call}

-- A daemon that serves a first snapshot.
abbrev serving : Daemon library
serving = record (daemon true []) { holder = (publish library [] [] (new_holder library)).1 }

is_served : IsServed library validator reader serving.holder
is_served = published unpublished [] []

abbrev begun : Service library validator reader
begun = start library validator reader 2 serving

abbrev asked : Service library validator reader
asked = call_begins library validator reader question 5 begun

abbrev changed : Service library validator reader
changed = record asked { system = Threads.after_queue library new_note asked.system }

abbrev replied : Service library validator reader
replied = call_finishes library validator reader call [] 5 changed

to_changed : Leads library validator reader begun changed
to_changed = later (later still (beginning question 5)) (threads (Threads.event new_note))

one_call : changed.calls ≡ call ∷ []
unfolding publish new_holder begin start_tool tool_by_name cache_key lookup String-discrete
    Cache.get init
one_call = refl

to_replied : Leads library validator reader changed replied
to_replied = later still (finishing [] call [] 5 one_call)

service-Transparent_example :
    (dispatch library validator reader question changed.system.daemon.holder.current
      changed.query_cache).0
    ≡ (dispatch library validator reader question changed.system.daemon.holder.current
        (init CacheKey-discrete 2)).0
service-Transparent_example =
    service-Transparent library validator reader (λ graph q h. refl) 2 serving changed question
      is_served to_changed

ready_for_good_example :
    (current_version library changed.system.daemon.holder.current
      ≤ current_version library replied.system.daemon.holder.current)
    × ((health_route library validator reader changed).ready ≡ true
        → (health_route library validator reader replied).ready ≡ true)
ready_for_good_example =
    ready_for_good library validator reader 2 serving changed replied is_served to_changed
      to_replied
