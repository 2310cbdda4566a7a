-- ===== src/Controller/Dispatch/Progress.antt =====
-- What starting a test does to the build handler, and when a waiting build is tested.
use st_tools.Prelude.{
  ◌≡◌, ◌⊎◌, refl, ap, ◌∙◌, String, Bool, true, false, not, ◌&&◌, Option, none, some, List, ◌∷◌,
  arith, inl, inr, eq_refl, if◌then◌else◌,
}
use st_tools.Prelude.Dict.{Dict, has, lookup-modify}
use st_tools.Prelude.Exec.{Result, ok}
use st_tools.Json.{Value, null}
use st_tools.BuildHandler.{Build, Db, Service, Status, test_ongoing, test_faulty, update_db}
use st_tools.BuildHandler.Queue.{
  find_next_build, is_there_build_to_test, get_build, fetch_pending_build_list,
}
use st_tools.BuildHandler.Queue.Order.{
  find_next_build_serves_list, is_there_build_to_test-eq, first_of, rest_of,
}
use st_tools.BuildHandler.Builds.{get_build_status, update_build_status, write_status}
use st_tools.BuildHandler.Invariant.{IsConsistent, get_build-total, info_of}
use st_tools.Controller.{World, ongoing_test, clean}
use st_tools.Controller.Launch.{
  Launch, started, can_create, created, report, fail, launch, select, start_hss_rtc_execution,
  take_build, set_test, is_null,
}
use st_tools.Controller.Signals
use st_tools.Controller.Dispatch.{check_priority_list, dispatch}

get_build_status-update :
    (b : String) (st : Status) (s : Service)
    → has b s.db.build_info ≡ true
    → st ≡ test_ongoing ⊎ (st ≡ test_faulty)
    → get_build_status b (update_build_status b st s) ≡ some st
unfolding get_build_status update_build_status write_status update_db
get_build_status-update b st s known e =
    ground (arith, lookup-modify b b (λ x. record x { status = st }) s.db.build_info, eq_refl b)

-- After a launch of a build that the database knows, by a service that is not paused, the status of
-- the build is `TEST_ONGOING` if a test runs and `TEST_FAULTY` if none does; in the second case the
-- service has no build, in the first it has the one that was launched.
pub launch-status :
    (l : Launch) (b : String) (w : World)
    → w.service_paused ≡ false
    → w.build ≡ some b
    → has b w.builds.db.build_info ≡ true
    → let v = launch l w in
      (get_build_status b v.builds ≡ some (if ongoing_test v then test_ongoing else test_faulty))
      × (v.build ≡ (if ongoing_test v then some b else none))
unfolding launch fail clean report created ongoing_test
launch-status started b w p e known = ground (
  arith,
  get_build_status-update b test_ongoing w.builds known (inl refl),
  get_build_status-update b test_faulty w.builds known (inr refl),
)
launch-status _ b w p e known =
    ground (arith, get_build_status-update b test_faulty w.builds known (inr refl))

-- The queue decides the pending build list.
list-queue :
    (s t : Service)
    → s.db.priority ≡ t.db.priority
    → fetch_pending_build_list s ≡ fetch_pending_build_list t
unfolding fetch_pending_build_list
list-queue s t e = rw e refl

update_build_status-queue :
    (b : String) (st : Status) (s : Service)
    → (update_build_status b st s).db.priority ≡ s.db.priority
unfolding update_build_status write_status update_db
update_build_status-queue b st s = ground arith

-- A launch that starts, in a running service.
launch_started :
    (b : String) (w : World)
    → w.service_paused ≡ false
    → w.build ≡ some b
    → has b w.builds.db.build_info ≡ true
    → can_create started w.service_config ≡ true
    → let v = launch started w in
      (ongoing_test v ≡ true)
      × (v.build ≡ some b)
      × (v.high_priority ≡ w.high_priority)
      × (get_build_status b v.builds ≡ some test_ongoing)
      × (fetch_pending_build_list v.builds ≡ fetch_pending_build_list w.builds)
unfolding launch report created ongoing_test
launch_started b w p e known can = ground (
  arith,
  get_build_status-update b test_ongoing w.builds known (inl refl),
  list-queue (update_build_status b test_ongoing w.builds) w.builds
      (update_build_status-queue b test_ongoing w.builds),
)

-- The database after a build was taken knows it if it had information.
info-has : (b : String) (d : Dict Build) → is_null (info_of (some b) d) ≡ false → has b d ≡ true
info-has b d e = ground arith

-- The service once it has taken a build from the queue.
abbrev taken : String → Bool → World → World
taken b h w =
    set_test (some b) (info_of (some b) w.builds.db.build_info) h
      (record w { builds = (get_build w.builds).1 })

take_build_ok :
    (b : String) (i : Value) (h : Bool) (r : Result (Option String × Value × Bool)) (w : World)
    → is_null i ≡ false
    → r ≡ ok (some b, i, h)
    → take_build r w ≡ (ok true, set_test (some b) i h w)
take_build_ok b i h r w known e = rw e (ground arith)

start_taken :
    (b : String) (h : Bool) (w : World)
    → is_null (info_of (some b) w.builds.db.build_info) ≡ false
    → (get_build w.builds).0 ≡ ok (some b, info_of (some b) w.builds.db.build_info, h)
    → start_hss_rtc_execution none null false started w ≡ (ok tt, launch started (taken b h w))
unfolding start_hss_rtc_execution select
start_taken b h w known e =
    rw
      (take_build_ok b (info_of (some b) w.builds.db.build_info) h (get_build w.builds).0
        (record w { builds = (get_build w.builds).1 }) known e)
      refl

get_build_first :
    (b : String) (h : Bool) (s : Service)
    → IsConsistent s.db
    → (find_next_build true s).0 ≡ (some b, h)
    → (get_build s).0 ≡ ok (some b, info_of (some b) s.db.build_info, h)
get_build_first b h s c e = ground (arith, (get_build-total s c).0)

-- Taking a build leaves the database of builds as it was, and the rest of the queue.
get_build-leaves :
    (s : Service)
    → IsConsistent s.db
    → ((get_build s).1.db.build_info ≡ s.db.build_info)
      × (fetch_pending_build_list (get_build s).1 ≡ rest_of (fetch_pending_build_list s))
unfolding find_next_build
get_build-leaves s c =
    let (returned, same, still) = get_build-total s c in
    let (next, left, looked) = find_next_build_serves_list s c.queue_dict in
    (
      ap (λ (d : Db). d.build_info) same,
      list-queue (get_build s).1 (find_next_build true s).1 (ap (λ (d : Db). d.priority) same)
          ∙ left,
    )

check_proceeds :
    (l : Launch) (w : World)
    → w.service_paused ≡ false
    → ongoing_test w ≡ false
    → w.high_priority && not w.current_test_can_be_stopped ≡ false
    → is_there_build_to_test w.builds ≡ true
    → dispatch (check_priority_list l) w ≡ (start_hss_rtc_execution none null false l w).1
unfolding dispatch Signals.check_priority_list Signals.next_test
check_proceeds l w p idle may waits = ground arith

-- With no test running and the service not paused, not on a high priority test that may not be
-- stopped, a configuration and a build that waits with its information: a check of the priority
-- list starts a test of the first build of the pending build list, with its priority, and marks it
-- `TEST_ONGOING`; the rest of the list stays. The database is consistent, and the test node comes
-- to the start.
pub check_starts :
    (b : String) (h : Bool) (rest : List (String × Bool)) (w : World)
    → w.service_paused ≡ false
    → ongoing_test w ≡ false
    → w.high_priority && not w.current_test_can_be_stopped ≡ false
    → IsConsistent w.builds.db
    → fetch_pending_build_list w.builds ≡ (b, h) ∷ rest
    → is_null (info_of (some b) w.builds.db.build_info) ≡ false
    → can_create started w.service_config ≡ true
    → let v = dispatch (check_priority_list started) w in
      (ongoing_test v ≡ true)
      × (v.build ≡ some b)
      × (v.high_priority ≡ h)
      × (get_build_status b v.builds ≡ some test_ongoing)
      × (fetch_pending_build_list v.builds ≡ rest)
check_starts b h rest w p idle may c pending known can =
    let (next, left, looked) = find_next_build_serves_list w.builds c.queue_dict in
    let waits : is_there_build_to_test w.builds ≡ true =
      ground (arith, is_there_build_to_test-eq w.builds c.queue_dict) in
    let (same, rest_left) = get_build-leaves w.builds c in
    let has_build : has b (get_build w.builds).1.db.build_info ≡ true =
      rw same (info-has b w.builds.db.build_info known) in
    let start =
      start_taken b h w known (get_build_first b h w.builds c (next ∙ ap first_of pending)) in
    let goes = launch_started b (taken b h w) p refl has_build can in
    rw (check_proceeds started w p idle may waits, start)
      (goes.0, goes.1, goes.2, goes.3, goes.4 ∙ rest_left ∙ ap rest_of pending)
