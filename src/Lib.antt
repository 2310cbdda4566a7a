-- ===== src/Lib.antt =====
-- ST_Tools: the services that queue builds of the HSS, start their tests and receive the triggers of
-- new builds, the tool that runs the tests, and the import of data over LDAP.
--
-- Three services exchange calls and signals over D-Bus. The build handler owns the database of
-- builds; the controller and the gateway call it as clients. The gateway turns messages that it
-- reads from TCP into such calls and into signals to the controller. The controller starts HSS_rtc
-- for one build at a time, and obeys the signals of the gateway, of HSS_rtc and of rtc_cli.
-- HSS_rtc executes the test cases of a suite one after the other, and repeats some; during a test
-- case its scheduler sets the rate of the traffic, or searches the capacity of the node.
--
-- Files, with the code that each models:
--   BuildHandler     dbus/rtc_build_handler/build_handler/service.py, the database and its file.
--     Naming         get_project, get_release, and the baseline of a release
--     Queue          priority_add, priority_del, priority_increase, find_next_build, get_build,
--                    is_there_build_to_test, fetch_pending_build_list
--     Builds         build_info_add, build_info_update, add_build_test_result, the status and the
--                    test information of a build
--     Baselines      baseline_add, baseline_del, baseline_list, fetch_baseline_test_info
--     Sweep          clean_build, purge_build
--     Calls          every remote call that changes state, as a step
--     Invariant      what a consistent database is, by the operations that keep it
--   Controller       dbus/rtc_controller/controller/service.py, the state of its Handler; also
--                    RTC_Handler of rtc_handler.py as far as the controller sees it.
--     Launch         start_hss_rtc_execution
--     Signals        check_priority_list, set_test_to_faulty, priority_increase,
--                    test_tool_ready_for_new_build, test_tool_shutdown
--     Config, Cli    the commands of rtc_cli
--     Releases       fetch_baseline, hss_release, baseline_data
--     Dispatch       the handlers that __init__ installs, called as Watcher._dispatcher_ of
--                    hss_utils/src/dbus/signals.py does; the step relation of the service
--   Gateway          dbus/rtc_gateway/gateway/service.py, the state of the gateway.
--     Actions        the actions that a trigger may name
--     Server         TCP_Handler: handle, decode, forward_to
--     Triggers       update_trigger
--   Remote           hss_utils/src/dbus/services.py: __process_request__ of a service, and the wrapper
--                    `remote` of a client
--   Watcher          hss_utils/src/dbus/signals.py: create_signal, read_signal, and the handlers of a
--                    Watcher
--   Scheduler        HSS_rtc/HSS_rtc_lib/components/scheduler.py, Scheduler_Base: the slots of a phase
--   Capacity         the same file, EC_Scheduler: the search for the capacity of a node, its state.
--     Plans, Search  refresh, start_phase, shutdown, and the states of the search
--     Table          what a search leaves: create_reference, build_cps_table, scheduling_info
--   Suite            HSS_rtc/HSS_rtc_lib/components/test_suite.py, the states of test cases
--     Execution      HSS_rtc/HSS_rtc: RTC_controller.run, and the orders of read_udp_cmd
--     Counts         the numbers of test cases
--   Phases           HSS_rtc/HSS_rtc_lib/components/steps.py: StepTranslator, and what a failed step does
--     Words          macro_translator of HSS_rtc/HSS_rtc, get_stFramework_error_message
--     Run            Step.run, Phase.run of phases.py, and the loop over the phases in RTC_controller.run
--   Junit            HSS_rtc/HSS_rtc_lib/components/junit.py, the report and its suites
--     Nodes          the XML nodes: to_xml_element, dump, load
--   Bat              HSS_rtc/HSS_rtc_lib/components/bat_instance.py, BAT_base: its registers of errors
--     Statistics     get_current_stats, check_result, update_errors_info
--     Run            run, stop, collect_and_clean
--   ErrorMonitor     HSS_rtc/HSS_rtc_lib/components/monitor.py, ErrorMonitor
--   ActionHandler    HSS_rtc/HSS_rtc_lib/components/action_handler.py: triggers, stop_cmd, shutdown
--     Config         __init__, the actions of a configuration
--     Orders         read_udp_cmd and what it calls
--     Run            run
--   LoadMonitor      HSS_rtc/HSS_rtc_lib/components/monitor.py, LoadMonitor: the slots of the load
--   Ldif             ldif_builder/ldaphelper/__init__.py: add, modify and delete over LDAP
--   Version          distutils.version.LooseVersion, by which the build handler sorts
--   Json             the values that json.load gives, with what the code does to them
--   Prelude          lists, dicts, texts, and methods that mutate an object and may raise
--
-- A method that may raise is a function from the object to a result and the object, so that what was
-- written before a raise stays written. A dict is an association list without double keys; the
-- results do not depend on the order of its entries. A loop is a recursion on the list that it runs
-- through, so no fuel is needed. The loop of HSS_rtc over its test cases, which may be repeated, takes
-- the number of rounds that it is given; one more than the test cases and their retries is enough.
--
-- What is taken for granted: json.load gives back what json.dump wrote, files can be written, and
-- calls and signals over D-Bus arrive; an exception of a remote call is raised again by the client,
-- with its text. The text of an answer or of an exception is a constructor that carries what the
-- text names. `op` and `build` of a TCP message are texts where they are there. How far HSS_rtc
-- comes when a test is started is the parameter `Launch`, which the test node decides; the wait for
-- the event that its thread sets is part of that step.
--
-- The rates of the scheduler are integers in units that are fine enough; numpy.var, the product of
-- floats and the macros are the record `Tools` of Capacity, the test of the variance of the load is an
-- argument of LoadMonitor.check_load_stability, "%f" and float the record `Times` of
-- Junit, the calls of an LDAP connection the record `Server` of Ldif, and what happens during a test
-- case the record `Round` of Suite, which Phases shows in detail. The table of commands of
-- StepTranslator is an argument of Phases, and what a command answers its record `Answer`. The parser
-- of XML is an argument of the theorem on the report that is written and read, with what it gives back
-- of nodes that hold only characters that XML keeps; a text that is empty is none. The parser of LDIF
-- is the entries that it reads, and whether the content is malformed after them.
--
-- `str` of the identity of a signal is an argument of read_signal, the comparison of versions by the
-- package packaging.version one of fetch_baseline, and the members of a service are an argument of
-- __process_request__.
--
-- Not modelled: the property baseline_test_info of the controller; fetch_trigger and fetch_tcp_port
-- of the gateway; sockets, threads and logs; how RTC_Handler prepares a node and runs HSS_rtc on it;
-- of HSS_rtc the phases EXECUTION and CHECK beyond what they report, the processes of the BAT
-- instances, graphs and texts of reports; and the rest of the repository, which is
-- command line tools over remote shells, programs in C++, and build files.
pub mod Prelude
pub mod Json
pub mod Version
pub mod BuildHandler
pub mod Controller
pub mod Gateway
pub mod Remote
pub mod Scheduler
pub mod Capacity
pub mod Suite
pub mod LoadMonitor
pub mod Junit
pub mod Ldif
pub mod Watcher
pub mod Bat
pub mod ErrorMonitor
pub mod ActionHandler
pub mod Phases
